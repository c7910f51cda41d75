-- ===== src/Links/Tests.antt =====
-- The theorems on links, quotas and the hash cache at small panels.
use rvg_sever.Prelude.{
  ℕ, ◌+◌, ◌≡◌, ◌≢◌, refl, arith, [], ◌∷◌, true, none, some, Key, Dict, get, ℕ_discrete,
}
use rvg_sever.Wire.Text.{Text, text_discrete}
use rvg_sever.Links.{Link, never, Panel, Moment, is_link_allowed, check_and_use}
use rvg_sever.Links.Accounts.{used_of, added, check_and_use_lem}
use rvg_sever.Links.Quota.{Instant, QuotaGate, add}
use rvg_sever.Links.Quota.Bounds.{IsBounded, add-IsBounded}
use rvg_sever.Links.Hashes.{find_uuid, rebuild}
use rvg_sever.Links.Hashes.Lookup.{find_uuid-stale}

instance abbrev number_key : Key ℕ
number_key = record { dec = ℕ_discrete }

instance abbrev text_key : Key Text
text_key = record { dec = text_discrete }

abbrev a : Text
a = []

abbrev b : Text
b = 0 ∷ []

abbrev c : Text
c = 0 ∷ 0 ∷ []

abbrev link : Link
link = record { active = true; expires_at = never; limit_bytes = 1000; used_bytes = 10 }

abbrev panel : Panel
panel = record { links = (a, link) ∷ (b, link) ∷ []; total_bytes = 0; hourly = [] }

abbrev moment : Moment
moment = record { now = 100; hour = 4 }

differ : a ≢ b
differ e = cc (e)

check_and_use_lem_example :
    ((check_and_use moment a 5 panel).0 ≡ is_link_allowed 100 (some link))
    × (used_of a (check_and_use moment a 5 panel).1
        ≡ 10 + added (check_and_use moment a 5 panel).0 5)
    × ((check_and_use moment a 5 panel).1.total_bytes
        ≡ 0 + added (check_and_use moment a 5 panel).0 5)
    × (get b (check_and_use moment a 5 panel).1.links ≡ some link)
unfolding get text_discrete ℕ_discrete
check_and_use_lem_example = check_and_use_lem moment a b 5 panel differ

-- A rate is a number of bytes here.
abbrev instant : Instant ℕ
instant = record { moment = moment; is_later = true; is_overdue = true; next_rate = λ rate n. n }

abbrev target_of : ℕ → ℕ
target_of rate = rate

abbrev gate : QuotaGate ℕ
gate = record { uuid = a; pending = 100; ok = true; batch_bytes = 32768; rate_ewma = 0 }

add-IsBounded_example : IsBounded (add 0 target_of instant 7 (gate, panel)).0
add-IsBounded_example =
    add-IsBounded 0 target_of instant 7 gate panel
      (record { at_least = omega arith; at_most = omega arith; few = omega arith })

abbrev hash : Text → Text
hash uid = 0 ∷ uid

abbrev replaced : Dict Text Link
replaced = (a, link) ∷ (c, link) ∷ []

find_uuid-stale_example : (find_uuid hash replaced (hash c) (rebuild hash panel.links)).0 ≡ none
unfolding get text_discrete ℕ_discrete
find_uuid-stale_example =
    find_uuid-stale hash panel.links replaced c (λ e. absurd (cc e), (λ e. absurd (cc e), tt)) refl
      refl
