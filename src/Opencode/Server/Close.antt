-- ===== src/Opencode/Server/Close.antt =====
-- No server process is left behind: the connections that are not closed are those in the map.
use espur.Base.{ℕ, ◌≡◌, true, false, Option, none, some, Bytes, lookup, bytes_eq, nat_eq}
use espur.Opencode.Server.{ServerConn, Servers}

abbrev pub find : ℕ → Servers → Option ServerConn
find n s = lookup n s.objects

pub record IsTidy (s : Servers) : Type 0 where
  pub owned :
      (n : ℕ) (c : ServerConn)
      → find n s ≡ some c
      → c.closed ≡ false
      → lookup c.vendor s.conns ≡ some n
  pub apart : (id : Bytes) (p : ℕ) → lookup id s.pending ≡ some p → lookup id s.conns ≡ none
  pub shut : s.closed ≡ true → (id : Bytes) → lookup id s.conns ≡ none
