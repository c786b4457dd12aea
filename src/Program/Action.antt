-- ===== src/Program/Action.antt =====
-- `enum xdp_action` of include/bpf/bpf.h.
use defrizer.Common.{ℕ}

pub data XdpAction : Type 0 where
  aborted drop pass tx redirect : XdpAction

-- The number that a program returns.
unfoldable pub action_code : XdpAction → ℕ
action_code aborted = 0
action_code drop = 1
action_code pass = 2
action_code tx = 3
action_code redirect = 4
