-- ===== src/Zeus/Admission/Counts.antt =====
-- The counters against the connections that are open.
use rvg_sever.Prelude.{
  ℕ, suc, ◌+◌, ◌-◌, ◌≡◌, refl, arith, List, [], ◌∷◌, Bool, length, true, leb, ◌==◌, ◌||◌,
  if◌then◌else◌, Key, get, get-put, get-remove, ite, Bool-cases, inl, inr,
}
use rvg_sever.Wire.Text.{Text}
use rvg_sever.Zeus.Admission.{Proxy, clear, or_default, admit, release}
use rvg_sever.Zeus.Traffic.{count_chunk}

-- A connection arrives at a time, or one of an address ends; the open ones pass bytes on; a task of
-- `_auto_delete` that an end has started runs.
pub data Event : Type 0 where
  arrive leave : ℕ → Text → Event
  pass : ℕ → Event
  auto_delete : Event

-- The proxy, the addresses of its open connections, how many tasks of `_auto_delete` wait, and whether
-- one has run.
pub record Life : Type 0 where
  pub proxy : Proxy
  pub peers : List Text
  pub waiting : ℕ
  pub cleared : Bool

module _ ⦃by_ip : Key Text⦄ where
  -- How many of the open connections are of an address.
  abbrev pub open_of : Text → List Text → ℕ
  open_of ip [] = 0
  open_of ip (peer ∷ peers) = ite (by_ip.dec peer ip) (suc (open_of ip peers)) (open_of ip peers)

  abbrev pub drop_one : Text → List Text → List Text
  drop_one ip [] = []
  drop_one ip (peer ∷ peers) =
      let rest = drop_one ip peers in ite (by_ip.dec peer ip) peers (peer ∷ rest)

  -- Only an open connection ends or passes bytes on, and only a task that waits runs.
  unfoldable pub step : Event → Life → Life
  step (arrive now ip) s =
      let (accepted, p) = admit now ip s.proxy in
      record s { proxy = p; peers = if accepted then ip ∷ s.peers else s.peers }
  step (leave now ip) s =
      let (deletes, p) = release now ip s.proxy in
      if open_of ip s.peers == 0 then s else record s {
        proxy = p;
        peers = drop_one ip s.peers;
        waiting = if deletes then s.waiting + 1 else s.waiting;
      }
  step (pass n) s = if length s.peers == 0 then s else record s { proxy = count_chunk n s.proxy }
  step auto_delete s =
      if s.waiting == 0
      then s
      else record s { proxy = clear s.proxy; waiting = s.waiting - 1; cleared = true }

  unfoldable pub run : List Event → Life → Life
  run [] s = s
  run (event ∷ events) s = run events (step event s)

  abbrev pub counter_of : Text → Proxy → ℕ
  counter_of q p = or_default 0 (get q p.connections_by_ip)

  abbrev pub limited : ℕ → ℕ → Bool
  limited m n = m == 0 || leb n m

  -- The counter of an address is at most the number of its open connections; as long as no task of
  -- `_auto_delete` has run it is that number, which is within the limit.
  pub record Counts (q : Text) (s : Life) : Type 0 where
    pub below : leb (counter_of q s.proxy) (open_of q s.peers) ≡ true
    pub exact : (s.cleared || (counter_of q s.proxy == open_of q s.peers)) ≡ true
    pub limit : (s.cleared || limited s.proxy.max_connections_per_ip (open_of q s.peers)) ≡ true

  open_of-drop_one :
      (ip q : Text) (peers : List Text)
      → open_of q (drop_one ip peers) ≡ ite (by_ip.dec ip q) (open_of q peers - 1) (open_of q peers)
  open_of-drop_one ip q [] = ground arith
  open_of-drop_one ip q (peer ∷ peers) = ground (arith, open_of-drop_one ip q peers)

  admit-counter :
      (now : ℕ) (ip q : Text) (p : Proxy)
      → counter_of q (admit now ip p).1
        ≡ ite
            (by_ip.dec ip q)
            (if (admit now ip p).0 then counter_of q p + 1 else counter_of q p)
            (counter_of q p)
  unfolding admit
  admit-counter now ip q p =
      ground
        (arith, get-put ip q (or_default 0 (get ip p.connections_by_ip) + 1) p.connections_by_ip)

  admit-limited :
      (now : ℕ) (ip : Text) (p : Proxy)
      → (admit now ip p).0 ≡ true
      → limited p.max_connections_per_ip (counter_of ip p + 1) ≡ true
  unfolding admit
  admit-limited now ip p accepted = ground (arith, accepted)

  admit-max :
      (now : ℕ) (ip : Text) (p : Proxy)
      → (admit now ip p).1.max_connections_per_ip ≡ p.max_connections_per_ip
  unfolding admit
  admit-max now ip p = ground arith

  release-max :
      (now : ℕ) (ip : Text) (p : Proxy)
      → (release now ip p).1.max_connections_per_ip ≡ p.max_connections_per_ip
  unfolding release
  release-max now ip p = refl

  release-counter :
      (now : ℕ) (ip q : Text) (p : Proxy)
      → counter_of q (release now ip p).1
        ≡ ite (by_ip.dec ip q) (counter_of q p - 1) (counter_of q p)
  unfolding release
  release-counter now ip q p =
      let count = or_default 1 (get ip p.connections_by_ip) - 1 in
      ground (arith, get-put ip q count p.connections_by_ip, get-remove ip q p.connections_by_ip)

  arrive-Counts :
      (now : ℕ) (ip q : Text) (s : Life)
      → Counts ip s
      → Counts q s
      → Counts q (step (arrive now ip) s)
  unfolding step
  arrive-Counts now ip q s own c = elim (Bool-cases (admit now ip s.proxy).0) [
    | inl accepted ↦ rw accepted (record {
      below = ground (arith, admit-counter now ip q s.proxy, accepted, c.below);
      exact = ground (arith, admit-counter now ip q s.proxy, accepted, c.exact);
      limit = ground (
        arith,
        admit-max now ip s.proxy,
        admit-limited now ip s.proxy accepted,
        own.exact,
        c.limit,
      );
    })
    | inr refused ↦ rw refused (record {
      below = ground (arith, admit-counter now ip q s.proxy, refused, c.below);
      exact = ground (arith, admit-counter now ip q s.proxy, refused, c.exact);
      limit = ground (arith, admit-max now ip s.proxy, c.limit);
    })
  ]

  leave-Counts : (now : ℕ) (ip q : Text) (s : Life) → Counts q s → Counts q (step (leave now ip) s)
  unfolding step
  leave-Counts now ip q s c = elim (Bool-cases (open_of ip s.peers == 0)) [
    | inl none_open ↦ rw none_open c
    | inr open_ ↦ rw open_ (record {
      below =
          ground (arith, release-counter now ip q s.proxy, open_of-drop_one ip q s.peers, c.below);
      exact =
          ground (arith, release-counter now ip q s.proxy, open_of-drop_one ip q s.peers, c.exact);
      limit = ground (arith, release-max now ip s.proxy, open_of-drop_one ip q s.peers, c.limit);
    })
  ]

  pass-Counts : (n : ℕ) (q : Text) (s : Life) → Counts q s → Counts q (step (pass n) s)
  unfolding step count_chunk
  pass-Counts n q s c = elim (Bool-cases (length s.peers == 0)) [
    | inl none_open ↦ rw none_open c
    | inr open_ ↦ rw open_ (record { below = c.below; exact = c.exact; limit = c.limit })
  ]

  auto_delete-Counts : (q : Text) (s : Life) → Counts q s → Counts q (step auto_delete s)
  unfolding step clear get
  auto_delete-Counts q s c = elim (Bool-cases (s.waiting == 0)) [
    | inl idle ↦ rw idle c
    | inr due ↦ rw due (record { below = ground arith; exact = refl; limit = refl })
  ]

  step-Counts :
      (event : Event) (s : Life) → ((q : Text) → Counts q s) → (q : Text) → Counts q (step event s)
  step-Counts (arrive now ip) s all q = arrive-Counts now ip q s (all ip) (all q)
  step-Counts (leave now ip) s all q = leave-Counts now ip q s (all q)
  step-Counts (pass n) s all q = pass-Counts n q s (all q)
  step-Counts auto_delete s all q = auto_delete-Counts q s (all q)

  -- From a state with these counts for every address, every sequence of arrivals and ends of connections, of
  -- bytes passed on and of automatic deletions, whatever the limits reject, leads to such a state: the
  -- counter of an address never exceeds the number of its open connections, and until an automatic
  -- deletion has run it is that number, which is then within the limit for an address.
  pub run-Counts :
      (events : List Event) (s : Life)
      → ((q : Text) → Counts q s)
      → (q : Text) → Counts q (run events s)
  unfolding run
  run-Counts [] s all q = all q
  run-Counts (event ∷ events) s all q = run-Counts events (step event s) (step-Counts event s all) q
