-- ===== src/Xhttp/Tests.antt =====
-- The theorems on XHTTP at a small upload and a short life of a session.
use rvg_sever.Prelude.{
  ℕ, ◌≡◌, ◌↔◌, refl, List, [], ◌∷◌, true, false, if◌then◌else◌, none, some, Key, get, put, remove,
  ℕ_discrete,
}
use rvg_sever.Wire.{Bytes}
use rvg_sever.Wire.Text.{Text, text_discrete}
use rvg_sever.Xhttp.{Writer, Session, new_session}
use rvg_sever.Xhttp.Sessions.{
  Server, shut, is_idle, teardown, reap, key_error, begin_packet, finish_packet, packet_up,
}
use rvg_sever.Xhttp.Sessions.Live.{IsLive}
use rvg_sever.Xhttp.Sessions.Runs.{
  Event, begin, end_of, step, run, run-IsLive, finish_packet-eq-key_error_iff,
}
use rvg_sever.Xhttp.Sessions.Reaping.{reap_lem}

instance abbrev number_key : Key ℕ
number_key = record { dec = ℕ_discrete }

instance abbrev text_key : Key Text
text_key = record { dec = text_discrete }

-- Packet 2 comes first, packet 1 while the destination is being connected, packet 4 last.
abbrev before : List (ℕ × Bytes)
before = (2, 20 ∷ []) ∷ []

abbrev during : List (ℕ × Bytes)
during = (1, 10 ∷ 11 ∷ []) ∷ []

abbrev after : List (ℕ × Bytes)
after = (4, 40 ∷ []) ∷ []

abbrev writer : Writer
writer = record { out = 7 ∷ []; closing = false }

abbrev sid : Text
sid = 115 ∷ []

abbrev token : Text
token = 116 ∷ []

abbrev empty : Server
empty = record { sessions = []; objects = []; connections = [] }

-- A session is opened, and with `ended` it is torn down while the body of its first packet arrives.
abbrev opened : List Event
opened = begin [] sid [] 100 token ∷ []

abbrev ended : List Event
ended = begin [] sid [] 100 token ∷ end_of sid ∷ []

empty-IsLive : IsLive empty
unfolding get
empty-IsLive = record {
  registered = λ sid ref e. absurd (cc (e));
  single = λ sid sid' ref e. absurd (cc (e));
  entry = λ ref s e. absurd (cc (e));
}

opened-IsLive : IsLive (run opened empty)
unfolding get
opened-IsLive = run-IsLive opened empty empty-IsLive (refl, tt)

ended-IsLive : IsLive (run ended empty)
unfolding get
ended-IsLive = run-IsLive ended empty empty-IsLive (refl, (tt, tt))

run-IsLive_example : IsLive (run ended empty)
unfolding get
run-IsLive_example = run-IsLive ended empty empty-IsLive (refl, (tt, tt))

session : Session
unfolding new_session
session = new_session [] packet_up token 100

sid_of_opened : get sid (run opened empty).sessions ≡ some token
unfolding run step begin_packet get put text_discrete ℕ_discrete new_session
sid_of_opened = refl

object_of_opened : get token (run opened empty).objects ≡ some session
unfolding run step begin_packet get put text_discrete ℕ_discrete session
object_of_opened = refl

object_of_ended : get token (run ended empty).objects ≡ some (shut session)
unfolding run step begin_packet teardown get put remove text_discrete ℕ_discrete session shut
object_of_ended = refl

reap_lem_example :
    (get sid (reap 200 (run opened empty)).sessions
      ≡ (if is_idle 200 session then none else some token))
    × (get token (reap 200 (run opened empty)).objects
        ≡ some (if is_idle 200 session then shut session else session))
reap_lem_example =
    reap_lem 200 sid token session (run opened empty) opened-IsLive sid_of_opened object_of_opened

finish_packet-eq-key_error_iff_example :
    ((finish_packet sid token true 0 (7 ∷ []) (run ended empty)).0 ≡ key_error)
    ↔ ((shut session).closed ≡ true)
finish_packet-eq-key_error_iff_example =
    finish_packet-eq-key_error_iff sid token 0 7 [] (shut session) (run ended empty) ended-IsLive
      object_of_ended
