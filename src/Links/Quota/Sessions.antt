-- ===== src/Links/Quota/Sessions.antt =====
-- Both directions of a connection: two gates of one link, whose calls come in any order, up to the
-- flushes at the end.
use rvg_sever.Wire.Text.{Text}
use rvg_sever.Prelude.{ℕ, ◌+◌, ◌≡◌, ◌∙◌, refl, arith, true, List, [], ◌∷◌, Key}
use rvg_sever.Links.{Panel, Moment}
use rvg_sever.Links.Accounts.{used_of}
use rvg_sever.Links.Quota.{Instant, QuotaGate, new_gate, add, flush}
use rvg_sever.Links.Quota.Conservation.{add-account, add-uuid, flush-account}

-- Bytes from the client and bytes to it.
pub data Action (Rate : Type 0) : Type 0 where
  up down : Instant Rate → ℕ → Action Rate

pub record Relay (Rate : Type 0) : Type 0 where
  pub upward : QuotaGate Rate
  pub downward : QuotaGate Rate
  pub panel : Panel

abbrev pub total : {Rate : Type 0} → List (Action Rate) → ℕ
total [] = 0
total (up _ n ∷ actions) = n + total actions
total (down _ n ∷ actions) = n + total actions

module _ {Rate : Type 0} (zero_rate : Rate) (target_of : Rate → ℕ) ⦃by_uuid : Key Text⦄
    ⦃by_hour : Key ℕ⦄ where
  unfoldable pub act : Action Rate → Relay Rate → Relay Rate
  act (up i n) r =
      let (gate, panel) = add zero_rate target_of i n (r.upward, r.panel) in
      record r { upward = gate; panel = panel }
  act (down i n) r =
      let (gate, panel) = add zero_rate target_of i n (r.downward, r.panel) in
      record r { downward = gate; panel = panel }

  unfoldable pub run : List (Action Rate) → Relay Rate → Relay Rate
  run [] r = r
  run (action ∷ actions) r = run actions (act action r)

  -- The flushes at the end.
  unfoldable pub close : Moment → Moment → Relay Rate → Relay Rate
  close first second r =
      let (upward, panel) = flush zero_rate target_of first (r.upward, r.panel) in
      let (downward, panel') = flush zero_rate target_of second (r.downward, panel) in
      record { upward = upward; downward = downward; panel = panel' }

  unfoldable pub open_relay : Text → Panel → Relay Rate
  open_relay uid p = record {
    upward = new_gate zero_rate target_of uid;
    downward = new_gate zero_rate target_of uid;
    panel = p;
  }

  run-uuid :
      (actions : List (Action Rate)) (r : Relay Rate)
      → ((run actions r).upward.uuid ≡ r.upward.uuid)
        × ((run actions r).downward.uuid ≡ r.downward.uuid)
  unfolding run act
  run-uuid [] r = (refl, refl)
  run-uuid (up i n ∷ actions) r =
      let (above, below) = run-uuid actions (act (up i n) r) in
      (above ∙ add-uuid zero_rate target_of i n r.upward r.panel, below)
  run-uuid (down i n ∷ actions) r =
      let (above, below) = run-uuid actions (act (down i n) r) in
      (above, below ∙ add-uuid zero_rate target_of i n r.downward r.panel)

  record Accounts (uid : Text) (n : ℕ) (r r' : Relay Rate) : Type 0 where
    up_open : r.upward.ok ≡ true
    down_open : r.downward.ok ≡ true
    account :
        used_of uid r'.panel + r'.upward.pending + r'.downward.pending
        ≡ used_of uid r.panel + r.upward.pending + r.downward.pending + n

  run-Accounts :
      (uid : Text) (actions : List (Action Rate)) (r : Relay Rate)
      → r.upward.uuid ≡ uid
      → r.downward.uuid ≡ uid
      → (run actions r).upward.ok ≡ true
      → (run actions r).downward.ok ≡ true
      → Accounts uid (total actions) r (run actions r)
  unfolding run act
  run-Accounts uid [] r own own' open_ open' = record {
    up_open = open_;
    down_open = open';
    account = omega arith;
  }
  run-Accounts uid (up i n ∷ actions) r own own' open_ open' =
      let own1 = add-uuid zero_rate target_of i n r.upward r.panel ∙ own in
      let later = run-Accounts uid actions (act (up i n) r) own1 own' open_ open' in
      let (before, _, account) =
        add-account zero_rate target_of i n uid r.upward r.panel own later.up_open in
      record {
        up_open = before;
        down_open = later.down_open;
        account = omega (arith, later.account, account);
      }
  run-Accounts uid (down i n ∷ actions) r own own' open_ open' =
      let own1 = add-uuid zero_rate target_of i n r.downward r.panel ∙ own' in
      let later = run-Accounts uid actions (act (down i n) r) own own1 open_ open' in
      let (before, _, account) =
        add-account zero_rate target_of i n uid r.downward r.panel own' later.down_open in
      record {
        up_open = later.up_open;
        down_open = before;
        account = omega (arith, later.account, account);
      }

  -- Where both gates of a connection are open after the last flush, whatever the order of the calls and
  -- the moments at which batches were accounted, the link has been charged exactly the bytes that
  -- passed in both directions.
  pub close-run :
      (uid : Text) (p : Panel) (actions : List (Action Rate)) (first second : Moment)
      → (close first second (run actions (open_relay uid p))).upward.ok ≡ true
      → (close first second (run actions (open_relay uid p))).downward.ok ≡ true
      → used_of uid (close first second (run actions (open_relay uid p))).panel
        ≡ used_of uid p + total actions
  unfolding close open_relay new_gate
  close-run uid p actions first second open_ open' =
      let start : Relay Rate = open_relay uid p in
      let r = run actions start in
      let q = (flush zero_rate target_of first (r.upward, r.panel)).1 in
      let (own, own') = run-uuid actions start in
      let (up_open, charged) =
        flush-account zero_rate target_of first uid r.upward r.panel own open_ in
      let (down_open, charged') =
        flush-account zero_rate target_of second uid r.downward q own' open' in
      let before = run-Accounts uid actions start refl refl up_open down_open in
      omega (arith, charged, charged', before.account)
