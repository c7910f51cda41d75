-- ===== src/Xhttp/Packets/Order.antt =====
-- A connection of packet-up from its first packet on: the packets in front of the destination's
-- connection and behind it, in any order.
use rvg_sever.Prelude.{ℕ, ◌<◌, ◌≡◌, List, [], ◌∷◌, Option, none, some, Key, Dict, get, put}
use rvg_sever.Wire.{Bytes}
use rvg_sever.Wire.Text.{Text}
use rvg_sever.Xhttp.{Writer, Session, Upload, stored, kept, connecting, receive, connected}
use rvg_sever.Xhttp.Packets.{Split}

-- The session where an upload was answered, and where it waits for its destination.
abbrev pub answered : Upload → Option Session
answered (stored s) = some s
answered (kept s) = some s
answered _ = none

abbrev pub awaiting : Upload → Option Session
awaiting (connecting s) = some s
awaiting _ = none

abbrev pub and_then : Option Session → (Session → Option Session) → Option Session
and_then none next = none
and_then (some s) next = next s

module _ ⦃by_seq : Key ℕ⦄ where
  unfoldable pub posts : List (ℕ × Bytes) → Session → Option Session
  posts [] s = some s
  posts ((seq, body) ∷ ps) s = and_then (answered (receive seq body s)) (posts ps)

  -- Packets, then packet 0, packets while its destination is being connected, the connection, packets.
  unfoldable pub upload :
      List (ℕ × Bytes)
      → Bytes
      → List (ℕ × Bytes)
      → Writer
      → List (ℕ × Bytes)
      → Session
      → Option Session
  upload before head during w after s = and_then (posts before s) λ s1.
      and_then (awaiting (receive 0 head s1))
        λ s2. and_then (posts during s2) λ s3. and_then (answered (connected w s3)) (posts after)

  -- All pieces, by number.
  abbrev pub put_all : List (ℕ × Bytes) → Dict ℕ Bytes → Dict ℕ Bytes
  put_all [] seen = seen
  put_all ((seq, body) ∷ ps) seen = put_all ps (put seq body seen)

  -- What a connection is given: the packets, and as piece 0 what its writer begins with.
  abbrev pub pieces : List (ℕ × Bytes) → List (ℕ × Bytes) → Writer → List (ℕ × Bytes) → Dict ℕ Bytes
  pieces before during w after = put_all after (put 0 w.out (put_all during (put_all before [])))

  -- Numbers above 0, each used once.
  abbrev pub AllNew : List (ℕ × Bytes) → Dict ℕ Bytes → Type 0
  AllNew [] seen = Unit {0}
  AllNew ((seq, body) ∷ ps) seen = (0 < seq) × (get seq seen ≡ none) × AllNew ps (put seq body seen)

  record Waits (seen : Dict ℕ Bytes) (s : Session) : Type 0 where
    no_writer : s.writer ≡ none
    no_first : get 0 seen ≡ none
    buffered : (k : ℕ) → get k s.seq_buf ≡ get k seen

  record Flows (seen : Dict ℕ Bytes) (s : Session) : Type 0 where
    writer : Writer
    has_writer : s.writer ≡ some writer
    split : Split seen s.next_seq s.seq_buf writer
    not_next : get s.next_seq seen ≡ none
