-- ===== src/Client/Posture/Waits.antt =====
-- What the wait that is advertised inside a retry window (api/client.rs) is worth.
use workflowy_mcp.Base.{ℕ, ◌+◌, ◌*◌, ◌≤◌, ◌≡◌, false, some, ltb, arith}
use workflowy_mcp.Client.Posture.{Stamps, rate_limit_posture, stamp_rate_limited, remaining_secs}

module _ {L : Type 0} (drain : L → L) where
  -- After a 429 that asks for a wait, the client is in the window exactly until the wait is over, whatever
  -- was stamped before; and a caller who waits for as many seconds as are advertised finds it out of it.
  pub remaining_secs_lem :
      (stamped wait now : ℕ) (before : Stamps L)
      → 1 ≤ stamped
      → stamped ≤ now
      → (let s = stamp_rate_limited drain stamped (some wait) before in
          ((rate_limit_posture now s).in_retry_window ≡ ltb now (stamped + wait))
          × ((rate_limit_posture
                (now + 1000 * remaining_secs (rate_limit_posture now s))
                s).in_retry_window
              ≡ false))
  unfolding rate_limit_posture stamp_rate_limited remaining_secs
  remaining_secs_lem stamped wait now before real later = (ground arith, ground arith)
