-- ===== src/Zeus/Traffic.antt =====
-- The relay of zeussocks5.py, `_pipe`, against the traffic limit of the proxy. A pipe counts a chunk only after
-- it was drained, so that other pipes run between its check and its count. `_auto_delete`, which only sets
-- the count back to 0, is not one of the events.
use rvg_sever.Prelude.{
  ℕ, zero, suc, ◌+◌, ◌*◌, ◌<◌, ◌≤◌, ◌≡◌, refl, arith, List, [], ◌∷◌, Bool, true, ltb, leb, ltb→lt,
  leb→le, ◌&&◌, ◌||◌, not, if◌then◌else◌, length, All, Bool-cases, inl, inr,
}
use rvg_sever.Zeus.Admission.{Proxy, is_expired, is_traffic_exceeded}

-- What one read of a pipe returns at most.
abbrev pub read_size : ℕ
read_size = 65536

-- Whether a pipe passes a chunk on.
unfoldable pub may_pass : ℕ → Proxy → Bool
unfolding is_expired is_traffic_exceeded
may_pass now p = not (is_expired now p || is_traffic_exceeded p)

unfoldable pub count_chunk : ℕ → Proxy → Proxy
count_chunk n p = record p { bytes_used = p.bytes_used + n }

-- A pipe reads a chunk at a time and writes it if it may; the pipe of a chunk that was written counts it.
pub data Event : Type 0 where
  reads : ℕ → ℕ → Event
  counts : ℕ → Event

-- The chunk at a place, and the others.
abbrev pub take_at : ℕ → List ℕ → ℕ × List ℕ
take_at i [] = (0, [])
take_at zero (n ∷ ns) = (n, ns)
take_at (suc i) (n ∷ ns) = let (m, rest) = take_at i ns in (m, n ∷ rest)

abbrev pub sum : List ℕ → ℕ
sum [] = 0
sum (n ∷ ns) = n + sum ns

-- The proxy with the chunks that are written and not counted: each of `pipes` pipes has one at most.
unfoldable pub step : ℕ → Event → Proxy × List ℕ → Proxy × List ℕ
unfolding may_pass count_chunk
step pipes (reads now n) (p, pending) =
    if ltb (length pending) pipes && (leb n read_size && may_pass now p)
    then (p, n ∷ pending)
    else (p, pending)
step pipes (counts i) (p, pending) = let (n, rest) = take_at i pending in (count_chunk n p, rest)

unfoldable pub run : ℕ → List Event → Proxy × List ℕ → Proxy × List ℕ
unfolding step
run pipes [] state = state
run pipes (event ∷ events) state = run pipes events (step pipes event state)

abbrev Fits : ℕ → Type 0
Fits n = n ≤ read_size

sum-Fits : (ns : List ℕ) → All Fits ns → sum ns ≤ read_size * length ns
sum-Fits [] all = omega arith
sum-Fits (n ∷ ns) all = omega (arith, all.0, sum-Fits ns all.1)

-- What is taken out and what is left.
record Taken (ns : List ℕ) (r : ℕ × List ℕ) : Type 0 where
  sums : r.0 + sum r.1 ≡ sum ns
  shorter : length r.1 ≤ length ns
  fits : All Fits r.1

take_at-Taken : (i : ℕ) (ns : List ℕ) → All Fits ns → Taken ns (take_at i ns)
take_at-Taken i [] all = record { sums = refl; shorter = omega arith; fits = tt }
take_at-Taken zero (n ∷ ns) all = record { sums = refl; shorter = omega arith; fits = all.1 }
take_at-Taken (suc i) (n ∷ ns) all =
    let later = take_at-Taken i ns all.1 in
    record {
      sums = omega (arith, later.sums);
      shorter = omega (arith, later.shorter);
      fits = (all.0, later.fits);
    }

-- The chunks in flight, and what all of them make of the bytes used.
pub record IsWithin (limit pipes : ℕ) (state : Proxy × List ℕ) : Type 0 where
  pub same_limit : state.0.traffic_limit ≡ limit
  pub fits : All Fits state.1
  pub few : length state.1 ≤ pipes
  pub used : state.0.bytes_used + sum state.1 < limit + read_size * pipes

not_exceeded :
    (now limit : ℕ) (p : Proxy)
    → p.traffic_limit ≡ limit
    → 0 < limit
    → may_pass now p ≡ true
    → p.bytes_used < limit
unfolding may_pass is_traffic_exceeded
not_exceeded now limit p same some_ passes = ground (arith, same, some_, passes)

all_three : (a b c : Bool) → (a && (b && c)) ≡ true → (a ≡ true) × (b ≡ true) × (c ≡ true)
all_three a b c e = ground (arith, e)

step-IsWithin :
    (limit pipes : ℕ) (event : Event) (state : Proxy × List ℕ)
    → 0 < limit
    → IsWithin limit pipes state
    → IsWithin limit pipes (step pipes event state)
unfolding step count_chunk
step-IsWithin limit pipes (reads now n) (p, pending) some_ h =
    elim (Bool-cases (ltb (length pending) pipes && (leb n read_size && may_pass now p))) [
      | inr stays ↦ rw stays h
      | inl goes ↦
          let (room, small, passes) =
            all_three (ltb (length pending) pipes) (leb n read_size) (may_pass now p) goes in
          let fits = leb→le n read_size small in
          let below = not_exceeded now limit p h.same_limit some_ passes in
          let few = ltb→lt (length pending) pipes room in
          rw goes (record {
            same_limit = h.same_limit;
            fits = (fits, h.fits);
            few = few;
            used = omega (arith, below, few, sum-Fits (n ∷ pending) (fits, h.fits));
          })
    ]
step-IsWithin limit pipes (counts i) (p, pending) some_ h =
    let taken = take_at-Taken i pending h.fits in
    record {
      same_limit = h.same_limit;
      fits = taken.fits;
      few = omega (arith, taken.shorter, h.few);
      used = omega (arith, taken.sums, h.used);
    }

run-IsWithin :
    (limit pipes : ℕ) (events : List Event) (state : Proxy × List ℕ)
    → 0 < limit
    → IsWithin limit pipes state
    → IsWithin limit pipes (run pipes events state)
unfolding run
run-IsWithin limit pipes [] state some_ h = h
run-IsWithin limit pipes (event ∷ events) state some_ h =
    run-IsWithin limit pipes events (step pipes event state) some_
      (step-IsWithin limit pipes event state some_ h)

-- A proxy with a traffic limit that is not used up, whose pipes have nothing in flight, never counts more than
-- the limit and one read of each pipe, in whatever order its pipes read and count.
pub run-bytes_used :
    (pipes : ℕ) (events : List Event) (p : Proxy)
    → 0 < p.traffic_limit
    → p.bytes_used < p.traffic_limit
    → (run pipes events (p, [])).0.bytes_used < p.traffic_limit + read_size * pipes
run-bytes_used pipes events p some_ below =
    let h =
      run-IsWithin p.traffic_limit pipes events (p, []) some_
        (record { same_limit = refl; fits = tt; few = omega arith; used = omega (arith, below) }) in
    omega (arith, h.used)
