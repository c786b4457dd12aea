-- ===== src/Tests/Links.antt =====
-- A link whose program goes away two seconds after it is detached: the state counts the seconds left,
-- and a hundred stands for a program that stays.
use defrizer.Common.{ℕ, ◌-◌, ◌≡◌, ◌⊎◌, refl, arith, sym, ap, inr, not, none, some, ◌==◌}
use defrizer.Link.{
  NetLinkCalls, LinkError, is_xdp_attached, remove_program, wait_removed, attach_program, attach,
}
use defrizer.Link.Removal.{
  IsFinal, after_looks, IsSeenFree, Removes, Settles, remove_program-Removes, attach-IsSeenFree,
}

abbrev leaving : NetLinkCalls ℕ
leaving = record {
  link_by_index = λ w i. (inr (record { index = i; attrs = some (some (not (w == 0))) }), w);
  set_xdp_fd = λ w link fd. (none, 2);
  set_xdp_fd_with_flags = λ w link fd flags. (none, 100);
  sleep = λ w. w - 1;
}

detached : remove_program leaving 7 3 100 ≡ some (none, 0)
unfolding remove_program wait_removed is_xdp_attached
detached = refl

IsFinal-look : IsFinal ((leaving.link_by_index (after_looks leaving 7 2 2) 7).0)
unfolding after_looks
IsFinal-look e = cc e

leaving-Settles : Settles leaving 7 3
leaving-Settles w w' w2 link look on p =
    let two : 2 ≡ w2 = ap (λ x. x.1) p in (2, omega arith, rw (sym two) IsFinal-look)

remove_program-Removes_example : Removes leaving 7 (remove_program leaving 7 3 100)
remove_program-Removes_example = remove_program-Removes leaving 7 3 100 leaving-Settles

attach-IsSeenFree_example :
    (w' : ℕ) × (((err : LinkError) × (attach leaving 7 3 5 100 ≡ some (some err, w')))
      ⊎ ((w1 : ℕ) × IsSeenFree leaving 7 w1
          × (attach_program leaving 7 5 w1 ≡ (none, w'))
          × (attach leaving 7 3 5 100 ≡ some (none, w'))))
attach-IsSeenFree_example = attach-IsSeenFree leaving 7 3 5 100 leaving-Settles
