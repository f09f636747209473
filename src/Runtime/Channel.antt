-- ===== src/Runtime/Channel.antt =====
-- An unbounded tokio channel: what has been sent, oldest first, and whether the receiver is alive.
use dart_edge.Base.{Bool, true, false, List, [], ◌∷◌, ◌++◌, if◌then◌else◌}

pub record Channel (M : Type 0) : Type 0 where
  pub sent : List M
  pub receiver : Bool

module _ {M : Type 0} where
  -- `send`: the channel afterwards, and `is_ok()`.
  unfoldable pub send : Channel M → M → Channel M × Bool
  send c m = if c.receiver then (record c { sent = c.sent ++ m ∷ [] }, true) else (c, false)
