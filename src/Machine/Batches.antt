-- ===== src/Machine/Batches.antt =====
-- The packet loop of `runPktBatch`: no packet is lost and none is made up.
use moon_state.Prelude.{
  inl, inr, ℕ, zero, suc, ◌+◌, ◌*◌, ◌^◌, ◌≤◌, ◌<◌, ◌≡◌, refl, sym, ap, ◌∙◌, Bool, List, [], ◌∷◌,
  ◌++◌, Perm, arith, length, length-append, some,
}
use mathlib.Core.List.{append-nil, append_assoc}
use moon_state.Fault.{ok, >>=-eq-ok, ok-injective, not-err-ok}
use moon_state.BufArray.{Ptr, BufArray, u32_mod, get_send_bufs, get_free_bufs, get_total_count}
use moon_state.BufArray.Entries.{Entry, Holds, decide_at, to_send, length-decide_at, length-to_send}
use moon_state.BufArray.Copy.{all_ptrs, as_cells, copies_split}
use moon_state.Machine.Types.{Sys, Env}
use moon_state.Machine.Uses.{Extended, WellBehaved}
use moon_state.Machine.Lookup.{Usable}
use moon_state.Machine.Step.{all_ptrs-decide_at}
use moon_state.Machine.Deadline.{run_timeouts_ends}
use moon_state.Machine.Batch.{run_pkt-Extended}
use moon_state.Machine.Run.{run_pkt}
use moon_state.Machine.Timeouts.{run_pkts, run_timeouts, run_pkt_batch, with_timers}

all_ptrs-append : (es fs : List Entry) → all_ptrs (es ++ fs) ≡ all_ptrs es ++ all_ptrs fs
all_ptrs-append [] fs = refl
all_ptrs-append ((p, r) ∷ es) fs = ap (◌∷◌ p) (all_ptrs-append es fs)

all_ptrs-to_send : (ps : List Ptr) → all_ptrs (to_send ps) ≡ ps
all_ptrs-to_send [] = refl
all_ptrs-to_send (p ∷ ps) = ap (◌∷◌ p) (all_ptrs-to_send ps)

-- The array holds the packets of `es`, in their order, and at most `n` packets behind them.
record Grown (es : List Entry) (n : ℕ) (b : BufArray) : Type 0 where
  pub entries : List Entry
  pub holds : Holds b entries
  pub extra : List Ptr
  pub packets : all_ptrs entries ≡ all_ptrs es ++ extra
  pub few : length extra ≤ n

suc-mul : (n c : ℕ) → suc n * c ≡ c + n * c
suc-mul n c = ground arith

length-Extended :
    (es : List Entry) (cur : ℕ) (flag : Bool) {n : ℕ} {b : BufArray}
    (x : Extended (decide_at es cur flag) n b)
    → length (decide_at es cur flag ++ to_send x.extra) ≡ length es + length x.extra
length-Extended es cur flag x = omega (
  arith,
  length-append (decide_at es cur flag) (to_send x.extra),
  length-decide_at es cur flag,
  length-to_send x.extra,
)

-- The packets that a first round added stand before those of the others.
Grown-trans :
    {es : List Entry} (cur : ℕ) (flag : Bool) {m n k : ℕ} {b c : BufArray}
    (x : Extended (decide_at es cur flag) m b)
    → Grown (decide_at es cur flag ++ to_send x.extra) n c
    → k ≡ m + n
    → Grown es k c
Grown-trans {es} cur flag x r e = record {
  entries = r.entries;
  holds = r.holds;
  extra = x.extra ++ r.extra;
  packets = r.packets ∙ ap (λ ps. ps ++ r.extra) first ∙ append_assoc (all_ptrs es) x.extra r.extra;
  few = omega (arith, e, r.few, x.few, length-append x.extra r.extra);
}
  where
    first : all_ptrs (decide_at es cur flag ++ to_send x.extra) ≡ all_ptrs es ++ x.extra
    first =
        all_ptrs-append (decide_at es cur flag) (to_send x.extra)
        ∙ cong2 (all_ptrs-decide_at es cur flag) (all_ptrs-to_send x.extra)
      where
        cong2 : {a b c d : List Ptr} → a ≡ b → c ≡ d → a ++ c ≡ b ++ d
        cong2 p q = cc

Grown-copies :
    {es : List Entry} {n k : ℕ} {b : BufArray}
    → Grown es n b
    → n ≡ k
    → (send free extra : List Ptr) × (get_send_bufs b ≡ ok (as_cells send))
      × (get_free_bufs b ≡ ok (as_cells free))
      × Perm (send ++ free) (all_ptrs es ++ extra)
      × (length extra ≤ k)
Grown-copies r e =
    let (send, free, sb, fb, _, _, perm) = copies_split r.holds in
    (send, free, r.extra, sb, fb, rw (← r.packets) perm, omega (arith, r.few, e))

module _ {K F W TM PM : Type 0} (env : Env K F W TM PM) (g : ℕ) (wb : WellBehaved env g)
    (known : (p : Ptr) (w : W) (id : K) → env.identify p w ≡ some id → Usable env id) where
  run_pkts-Grown :
      (n cur : ℕ) {es : List Entry} (s t : Sys K F W TM PM)
      → cur + n ≤ length es
      → length es + n * (g + g) < 2 ^ 31
      → Holds s.bufs es
      → run_pkts env n cur s ≡ ok t
      → Grown es (n * (g + g)) t.bufs
  unfolding run_pkts
  run_pkts-Grown zero cur {es} s t le room b h = record {
    entries = es;
    holds = rw (← ok-injective h) b;
    extra = [];
    packets = sym (append-nil (all_ptrs es));
    few = omega arith;
  }
  run_pkts-Grown (suc n) cur {es} s t le room b h =
      let (u, q, k) = >>=-eq-ok (run_pkt env cur s) (run_pkts env n (cur + 1)) h in
      let m : suc n * (g + g) ≡ (g + g) + n * (g + g) = suc-mul n (g + g) in
      let room1 : length es + (g + g) < 2 ^ 31 = omega (arith, m) in
      let lt : cur < length es = omega arith in
      let (flag, x) = run_pkt-Extended env g wb known cur s u lt room1 b q in
      let size = length-Extended es cur flag x in
      let le2 : cur + 1 + n ≤ length (decide_at es cur flag ++ to_send x.extra) =
        omega (arith, size) in
      let room2 : length (decide_at es cur flag ++ to_send x.extra) + n * (g + g) < 2 ^ 31 =
        omega (arith, size, m, x.few) in
      let r = run_pkts-Grown n (cur + 1) u t le2 room2 x.holds k in Grown-trans cur flag x r m

  -- When `runPktBatch` returns, no packet is lost and none is made up: what `getSendBufs` and
  -- `getFreeBufs` then return is, in some order, the batch and at most `2 * g` further packets
  -- for each of its packets. Conditions: the functions work through the interface by at most `g`
  -- calls each, the identifier returns no reserved key, and the batch is small enough not to
  -- overflow.
  pub run_pkt_batch-conserves :
      {es : List Entry} (s t : Sys K F W TM PM)
      → length es + length es * (g + g) < 2 ^ 31
      → Holds s.bufs es
      → run_pkt_batch env s ≡ ok t
      → (send free extra : List Ptr) × (get_send_bufs t.bufs ≡ ok (as_cells send))
        × (get_free_bufs t.bufs ≡ ok (as_cells free))
        × Perm (send ++ free) (all_ptrs es ++ extra)
        × (length extra ≤ length es * (g + g))
  unfolding run_pkt_batch with_timers get_total_count
  run_pkt_batch-conserves {es} s t room b h =
      let (u, q, k) =
        >>=-eq-ok (run_timeouts env (suc (length s.sm.timers.timeouts_q)) s)
          (run_pkts env s.bufs.num_bufs 0) h in
      let small : s.bufs.num_bufs < u32_mod = omega (arith, b.bufs) in
      let size : 0 + s.bufs.num_bufs ≤ length es = omega (arith, b.bufs) in
      let all : length es + s.bufs.num_bufs * (g + g) < 2 ^ 31 = rw b.bufs room in
      let fuel : length s.sm.timers.timeouts_q < suc (length s.sm.timers.timeouts_q) =
        omega arith in
      let same : u.bufs ≡ s.bufs = elim (run_timeouts_ends env g _ s wb small fuel) [
        | inl (ts, e) ↦ ap (λ (z : Sys K F W TM PM). z.bufs) (ok-injective (sym q ∙ e))
        | inr x ↦ absurd (not-err-ok (sym x.result ∙ q))
      ] in
      let r = run_pkts-Grown s.bufs.num_bufs 0 u t size all (rw same b) k in
      Grown-copies r (ap (λ n. n * (g + g)) b.bufs)
