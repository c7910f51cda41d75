-- ===== src/Tunnel/Turns.antt =====
-- The turns of the relays of a tunnel: what passes in them.
pub mod Delivers
use mathlib.Core.Path.{subst}
use mathlib.Core.List.{append_assoc, append-nil}
use rvg_sever.Prelude.{
  ℕ, ◌+◌, ◌≡◌, refl, sym, ap, ◌∙◌, arith, List, [], ◌∷◌, ◌++◌, Bool, true, false, Key, length,
  length-append,
}
use rvg_sever.Wire.{Bytes}
use rvg_sever.Wire.Text.{Text}
use rvg_sever.Links.Quota.{Instant}
use rvg_sever.Links.Quota.Sessions.{Action, up, down, act, run, total}
use rvg_sever.Tunnel.{
  Message, disconnect, received, Turn, from_client, from_remote, Tunnel, framed, pass_up, pass_down,
  turn, relay_turns,
}

-- The turns before the first end of a relay.
abbrev pub until_end : {Rate : Type 0} → List (Turn Rate) → List (Turn Rate)
until_end [] = []
until_end (from_client i disconnect ∷ es) = []
until_end (from_remote i [] ∷ es) = []
until_end (from_client i (received bs) ∷ es) = from_client i (received bs) ∷ until_end es
until_end (from_remote i (b ∷ bs) ∷ es) = from_remote i (b ∷ bs) ∷ until_end es

-- What passes in them: the calls of the gates, the bytes from the client, and those to it.
abbrev pub actions : {Rate : Type 0} → List (Turn Rate) → List (Action Rate)
actions [] = []
actions (from_client i (received (b ∷ bs)) ∷ es) = up i (length (b ∷ bs)) ∷ actions es
actions (from_remote i (b ∷ bs) ∷ es) = down i (length (b ∷ bs)) ∷ actions es
actions (from_client i (received []) ∷ es) = actions es
actions (from_client i disconnect ∷ es) = actions es
actions (from_remote i [] ∷ es) = actions es

abbrev pub sent_bytes : Message → Bytes
sent_bytes disconnect = []
sent_bytes (received bs) = bs

abbrev pub upload : {Rate : Type 0} → List (Turn Rate) → Bytes
upload [] = []
upload (from_client i m ∷ es) = sent_bytes m ++ upload es
upload (from_remote i bs ∷ es) = upload es

abbrev pub download : {Rate : Type 0} → List (Turn Rate) → Bytes
download [] = []
download (from_client i m ∷ es) = download es
download (from_remote i bs ∷ es) = bs ++ download es

pub total-actions :
    {Rate : Type 0} (es : List (Turn Rate))
    → total (actions es) ≡ length (upload es) + length (download es)
total-actions [] = refl
total-actions (from_client i disconnect ∷ es) = total-actions es
total-actions (from_client i (received []) ∷ es) = total-actions es
total-actions (from_client i (received (b ∷ bs)) ∷ es) =
    omega (arith, total-actions es, length-append (b ∷ bs) (upload es))
total-actions (from_remote i [] ∷ es) = total-actions es
total-actions (from_remote i (b ∷ bs) ∷ es) =
    omega (arith, total-actions es, length-append (b ∷ bs) (download es))

-- The bytes of all messages, and the answer of the tunnel in front of those of the destination.
abbrev pub concat : List Bytes → Bytes
concat [] = []
concat (bs ∷ bss) = bs ++ concat bss

abbrev pub answered : Bool → Bytes → Bytes
answered prefixes [] = []
answered prefixes (b ∷ bs) = framed prefixes (b ∷ bs)

pub concat-append : (bss : List Bytes) (bs : Bytes) → concat (bss ++ (bs ∷ [])) ≡ concat bss ++ bs
concat-append [] bs = append-nil bs
concat-append (cs ∷ bss) bs =
    ap (λ rest. cs ++ rest) (concat-append bss bs) ∙ sym (append_assoc cs (concat bss) bs)

pub answered-false : (bs : Bytes) → answered false bs ≡ bs
answered-false [] = refl
answered-false (b ∷ bs) = refl

pub framed-append : (p : Bool) (bs cs : Bytes) → framed p (bs ++ cs) ≡ framed p bs ++ cs
framed-append true bs cs = refl
framed-append false bs cs = refl
