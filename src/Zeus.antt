-- ===== src/Zeus.antt =====
-- The SOCKS5 server of zeussocks5.py: the conversation of `_handle_client` up to the relay; below it
-- are the admission of connections with its counters, the relay and the life of the proxy.
pub mod Clients
pub mod Admission
pub mod Traffic
pub mod Lifecycle
mod Tests
use rvg_sever.Prelude.{
  ℕ, zero, suc, ◌+◌, ◌-◌, ◌*◌, ◌<◌, ◌≤◌, List, [], ◌∷◌, ◌++◌, Bool, true, false, ltb, leb, ◌==◌,
  ◌&&◌, ◌||◌, not, if◌then◌else◌, Result, ok, err, Option, none, some, Key, Dict, get, put, remove,
}
use rvg_sever.Wire.{Bytes, read_exact, from_be}
use rvg_sever.Wire.Text.{Text, dotted, utf8_ignore}
use rvg_sever.Wire.Strings.{same_text}

-- How a conversation ends: the connection is closed, or its bytes are relayed to a destination.
pub data Outcome : Type 0 where
  hang_up : Outcome
  relay : Text → ℕ → Bytes → Outcome

-- What the server writes, and how it ends.
pub record Dialogue : Type 0 where
  pub replies : List Bytes
  pub outcome : Outcome

abbrev pub silent : Dialogue
silent = record { replies = []; outcome = hang_up }

abbrev pub say : Bytes → Dialogue → Dialogue
say reply d = record d { replies = reply ∷ d.replies }

-- await reader.readexactly(n): the end of the connection closes it.
abbrev pub reading : Result (Bytes × Bytes) → (Bytes → Bytes → Dialogue) → Dialogue
reading (err _) next = silent
reading (ok (xs, rest)) next = next xs rest

abbrev pub any_is : ℕ → Bytes → Bool
any_is n [] = false
any_is n (b ∷ bs) = b == n || any_is n bs

-- `_creds`, and what the network answers: whether a destination is reached, and the text of an IPv6
-- address as `inet_ntop` writes it.
pub record Server : Type 0 where
  pub user : Text
  pub password : Text
  pub reaches : Text → ℕ → Bool
  pub ipv6_name : Bytes → Text

abbrev pub refusal : ℕ → Bytes
refusal code = 5 ∷ code ∷ 0 ∷ 1 ∷ 0 ∷ 0 ∷ 0 ∷ 0 ∷ 0 ∷ 0 ∷ []

module _ (s : Server) where
  unfoldable pub connect : Text → ℕ → Bytes → Dialogue
  connect address port rest =
      if s.reaches address port
      then say (refusal 0) (record { replies = []; outcome = relay address port rest })
      else say (refusal 5) silent

  -- The port behind the address.
  unfoldable pub with_port : Text → Bytes → Dialogue
  unfolding connect
  with_port address rest =
      reading (read_exact 2 rest) (λ port rest. connect address (from_be port) rest)

  unfoldable pub named : Bytes → Bytes → Dialogue
  unfolding with_port
  named (dlen ∷ []) rest =
      reading (read_exact dlen rest) (λ name rest. with_port (utf8_ignore name) rest)
  named _ rest = silent

  unfoldable pub destination : ℕ → Bytes → Dialogue
  unfolding with_port named
  destination atyp rest =
      if atyp == 1
      then reading (read_exact 4 rest) (λ address rest. with_port (dotted address) rest)
      else if atyp == 3
      then reading (read_exact 1 rest) (λ dlen rest. named dlen rest)
      else if atyp == 4
      then reading (read_exact 16 rest) (λ address rest. with_port (s.ipv6_name address) rest)
      else say (refusal 8) silent

  unfoldable pub request : Bytes → Bytes → Dialogue
  unfolding destination
  request (ver ∷ cmd ∷ rsv ∷ atyp ∷ []) rest =
      if not (ver == 5) || not (cmd == 1) then say (refusal 7) silent else destination atyp rest
  request _ rest = silent

  -- Step 2: the name and the password of RFC 1929.
  unfoldable pub judge : Bytes → Bytes → Bytes → Dialogue
  unfolding request
  judge uname passwd rest =
      if same_text (utf8_ignore uname) s.user && same_text (utf8_ignore passwd) s.password
      then say (1 ∷ 0 ∷ []) (reading (read_exact 4 rest) request)
      else say (1 ∷ 1 ∷ []) silent

  unfoldable pub read_password : Bytes → Bytes → Bytes → Dialogue
  unfolding judge
  read_password uname (plen ∷ []) rest =
      reading (read_exact plen rest) (λ passwd rest. judge uname passwd rest)
  read_password uname _ rest = silent

  unfoldable pub read_name : Bytes → Bytes → Dialogue
  unfolding read_password
  read_name (ver ∷ ulen ∷ []) rest =
      reading (read_exact ulen rest)
        (λ uname rest. reading (read_exact 1 rest) (read_password uname))
  read_name _ rest = silent

  -- Step 1: the methods; 2 is the one with a password.
  unfoldable pub choose : Bytes → Bytes → Dialogue
  unfolding read_name
  choose methods rest =
      if not (any_is 2 methods)
      then say (5 ∷ 255 ∷ []) silent
      else say (5 ∷ 2 ∷ []) (reading (read_exact 2 rest) read_name)

  unfoldable pub greet : Bytes → Bytes → Dialogue
  unfolding choose
  greet (ver ∷ nmethods ∷ []) rest =
      if not (ver == 5) then silent else reading (read_exact nmethods rest) choose
  greet _ rest = silent

  -- The conversation, over all that the client sends.
  unfoldable pub converse : Bytes → Dialogue
  unfolding greet
  converse bs = reading (read_exact 2 bs) greet
