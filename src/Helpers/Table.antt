-- ===== src/Helpers/Table.antt =====
-- The declarations of bpf_helper_defs.h, in order.
mod From1
mod From39
mod From71
mod From111
use defrizer.Common.{List, ◌++◌}
use defrizer.Helpers.Types.{Helper}
use From1.{
  helpers_from_1, helpers_from_8, helpers_from_13, helpers_from_20, helpers_from_23,
  helpers_from_27, helpers_from_32,
}
use From39.{
  helpers_from_39, helpers_from_46, helpers_from_52, helpers_from_57, helpers_from_61,
  helpers_from_66,
}
use From71.{
  helpers_from_71, helpers_from_77, helpers_from_84, helpers_from_91, helpers_from_99,
  helpers_from_105,
}
use From111.{
  helpers_from_111, helpers_from_119, helpers_from_125, helpers_from_133, helpers_from_141,
}

unfoldable pub helpers : List Helper
helpers =
    helpers_from_1
    ++ (helpers_from_8
        ++ (helpers_from_13
            ++ (helpers_from_20
                ++ (helpers_from_23
                    ++ (helpers_from_27
                        ++ (helpers_from_32
                            ++ (helpers_from_39
                                ++ (helpers_from_46
                                    ++ (helpers_from_52
                                        ++ (helpers_from_57
                                            ++ (helpers_from_61
                                                ++ (helpers_from_66
                                                    ++ (helpers_from_71
                                                        ++ (helpers_from_77
                                                            ++ (helpers_from_84
                                                            ++ (helpers_from_91
                                                            ++ (helpers_from_99
                                                            ++ (helpers_from_105
                                                            ++ (helpers_from_111
                                                            ++ (helpers_from_119
                                                            ++ (helpers_from_125
                                                            ++ (helpers_from_133
                                                            ++ (helpers_from_141)))))))))))))))))))))))
