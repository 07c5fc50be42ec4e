-- ===== src/Machine/Finish.antt =====
-- The end of `runPkt`: the connection after its state function has run.
use moon_state.Prelude.{
  ℕ, ◌≡◌, ◌≢◌, refl, sym, ◌∙◌, Bool, true, false, Option, none, some, List, if◌then◌else◌, if_true,
  if_false,
}
use mathlib.Core.Option
use moon_state.BufArray.Entries.{Entry, decide_at}
use moon_state.Machine.Types.{State, Iface, Sys, Env}
use moon_state.Machine.Uses.{Extended, WellBehaved}
use moon_state.Machine.Lookup.{same_self, same-ne, tracked, waiting, Usable}
use moon_state.Machine.Run.{write_back, drop_conn, count_closed}

map-const : {A B : Type 0} (o : Option A) (b c : B) → Option.map (λ _. b) o ≡ some c → c ≡ b
map-const none b c h = cc
map-const (some a) b c h = cc

module _ {K F W TM PM : Type 0} (env : Env K F W TM PM) where
  open env use {keys, table, pooled}

  -- From `s` to `t` only the connection `id` may change, and the registered functions stay.
  pub record Only (id : K) (s t : Sys K F W TM PM) : Type 0 where
    pub functions : t.sm.functions ≡ s.sm.functions
    pub end_state_id : t.sm.end_state_id ≡ s.sm.end_state_id
    pub listens : t.sm.listen_to_connections ≡ s.sm.listen_to_connections
    pub others :
        (j : K)
        → Usable env j
        → j ≢ id
        → (tracked env t j ≡ tracked env s j) × (waiting env t j ≡ waiting env s j)

  module _ (id : K) (u : Usable env id) (j : Iface K F W) (same_conn : j.conn_id ≡ id)
      (s : Sys K F W TM PM) where
    pub find-write_back :
        (k : K)
        → Usable env k
        → tracked env (write_back env j s) k ≡ (
            if keys.same k id
            then Option.map (λ _. j.state) (tracked env s id)
            else tracked env s k)
    unfolding write_back
    find-write_back k v = rw same_conn (table.find-assign k id j.state s.sm.state_table v.0 u.0)

    pub write_back-Only : Only id s (write_back env j s)
    unfolding write_back
    write_back-Only = record {
      functions = refl;
      end_state_id = refl;
      listens = refl;
      others = λ k v ne. (find-write_back k v ∙ if_false _ _ _ (same-ne keys k id ne), refl);
    }

    pub write_back-state :
        (st : State) → tracked env (write_back env j s) id ≡ some st → st ≡ j.state
    write_back-state st h =
        map-const (tracked env s id) j.state st
          (sym (find-write_back id u ∙ if_true _ _ _ (same_self keys id)) ∙ h)

    find-drop_conn :
        (k : K)
        → Usable env k
        → tracked env (drop_conn env j.conn_id (write_back env j s)) k
          ≡ (if keys.same k id then none else tracked env (write_back env j s) k)
    unfolding drop_conn
    find-drop_conn k v = rw same_conn (table.find-erase k id _ v.0 u.0)

    pub drop_conn-none : tracked env (drop_conn env j.conn_id (write_back env j s)) id ≡ none
    drop_conn-none = find-drop_conn id u ∙ if_true _ _ _ (same_self keys id)

    pub drop_conn-Only : Only id s (drop_conn env j.conn_id (write_back env j s))
    unfolding write_back drop_conn
    drop_conn-Only = record {
      functions = refl;
      end_state_id = refl;
      listens = refl;
      others = λ k v ne. (
        find-drop_conn k v
            ∙ if_false _ _ _ (same-ne keys k id ne)
            ∙ find-write_back k v
            ∙ if_false _ _ _ (same-ne keys k id ne),
        refl,
      );
    }

  -- The connection `id` after `finish`, when its interface object was `i`.
  pub record Finished (id : K) (cur : ℕ) (i : Iface K F W) (es : List Entry) (n : ℕ)
      (s t : Sys K F W TM PM) : Type 0 where
    pub batch : Extended (decide_at es cur i.send_pkt) n t.bufs
    pub only : Only id s t
    pub alive : (st : State) → tracked env t id ≡ some st → st.state ≢ s.sm.end_state_id

  module _ (g : ℕ) (wb : WellBehaved env g) (id : K) (u : Usable env id) (cur : ℕ) where
    pub counted-Finished :
        (counts : Bool) (i : Iface K F W) {es : List Entry} {n : ℕ} (s t : Sys K F W TM PM)
        → Finished id cur i es n s t
        → Finished id cur i es n s (if counts then count_closed env t else t)
    unfolding count_closed
    counted-Finished true i s t f = record {
      batch = f.batch;
      only = record {
        functions = f.only.functions;
        end_state_id = f.only.end_state_id;
        listens = f.only.listens;
        others = f.only.others;
      };
      alive = f.alive;
    }
    counted-Finished false i s t f = f

    pub dropped-Finished :
        (i j : Iface K F W) {es : List Entry} {n : ℕ} (s : Sys K F W TM PM)
        → j.conn_id ≡ id
        → Extended (decide_at es cur i.send_pkt) n j.bufs
        → Finished id cur i es n s (drop_conn env j.conn_id (write_back env j s))
    unfolding drop_conn write_back
    dropped-Finished i j s c x = record {
      batch = x;
      only = drop_conn-Only id u j c s;
      alive = λ st e. absurd (cc (drop_conn-none id u j c s));
    }

    pub kept-Finished :
        (i j : Iface K F W) {es : List Entry} {n : ℕ} (s : Sys K F W TM PM)
        → j.conn_id ≡ id
        → Extended (decide_at es cur i.send_pkt) n j.bufs
        → j.state.state ≢ s.sm.end_state_id
        → Finished id cur i es n s (write_back env j s)
    unfolding write_back
    kept-Finished i j s c x ne = record {
      batch = x;
      only = write_back-Only id u j c s;
      alive = λ st e. rw (write_back-state id u j c s st e) ne;
    }
