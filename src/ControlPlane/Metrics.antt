-- ===== src/ControlPlane/Metrics.antt =====
-- src/main.py: `refresh_pending_approval_metrics`, with the gauge `workflow_pending_approval_seconds` of
-- src/watchdog/metrics.py. A set is a list of which only the members count.
use aegis_os.Prelude.{
  ℕ, ◌-◌, String, ◌==◌, string_eq, ◌≡◌, refl, sym, ap, ◌∙◌, Bool, false, not, ◌&&◌, ◌||◌,
  Bool-cases, inl, inr, eq_iff, ==_refl, Option, none, some, List, [], ◌∷◌, contains, arith,
  if◌then◌else◌,
}
use aegis_os.Dict.{Dict, get, put, remove_all, get-put, get-remove_all, is_some}
use aegis_os.Audit.{AuditLogger, Level, text, plain}
use aegis_os.ControlPlane.ApprovalService.{ApprovalStatusSnapshot}

-- The gauge, by workflow id, `_tracked_pending_approval_workflow_ids` and the log.
pub record Metrics : Type 0 where
  pub workflow_pending_approval_seconds : Dict String ℕ
  pub tracked : List String
  pub audit : AuditLogger

-- What comes of the approval service: there is none, its call raises, or it gives the snapshots.
pub data Source : Type 0 where
  absent : Source
  failing : String → Source
  listing : List ApprovalStatusSnapshot → Source

abbrev pub snapshots_of : Source → List ApprovalStatusSnapshot
snapshots_of absent = []
snapshots_of (failing message) = []
snapshots_of (listing snapshots) = snapshots

-- The event of a call that raises.
abbrev pub audit_of : Source → AuditLogger → AuditLogger
audit_of absent a = a
audit_of (failing message) a =
    plain Level.warning "aegis.hitl_metrics_refresh_failed" (("error", text message) ∷ []) a
audit_of (listing snapshots) a = a

-- The gauge and the current ids, with a snapshot that is pending. An age is at least 0.
abbrev pub mark : ℕ → String → Option ℕ → Dict String ℕ × List String → Dict String ℕ × List String
mark now id none c = c
mark now id (some since) (gauge, current) = (put gauge id (now - since), id ∷ current)

-- The loop over the snapshots
pub observe :
    ℕ → List ApprovalStatusSnapshot → Dict String ℕ × List String → Dict String ℕ × List String
observe now [] c = c
observe now (s ∷ ss) c = observe now ss (mark now s.task_id s.pending_since_epoch_seconds c)

-- The difference of two sets
pub difference : List String → List String → List String
difference [] current = []
difference (id ∷ ids) current =
    let rest = difference ids current in if contains current id then rest else id ∷ rest

-- `refresh_pending_approval_metrics`
unfoldable pub refresh_pending_approval_metrics : ℕ → Source → Metrics → Metrics
unfolding observe difference
refresh_pending_approval_metrics now source m =
    let (gauge, current) =
      observe now (snapshots_of source) (m.workflow_pending_approval_seconds, []) in
    record {
      workflow_pending_approval_seconds = remove_all gauge (difference m.tracked current);
      tracked = current;
      audit = audit_of source m.audit;
    }

-- The age that is due for a workflow: that of its last pending snapshot, or what was there before.
abbrev pub due : ℕ → String → Option ℕ → String → Option ℕ → Option ℕ
due now task_id none id o = o
due now task_id (some since) id o = if task_id == id then some (now - since) else o

pub shown : ℕ → List ApprovalStatusSnapshot → String → Option ℕ → Option ℕ
shown now [] id o = o
shown now (s ∷ ss) id o = shown now ss id (due now s.task_id s.pending_since_epoch_seconds id o)

-- The ids that are tracked are those that the gauge has a value for.
abbrev pub IsTracked : Metrics → Type 0
IsTracked m =
    (id : String) → contains m.tracked id ≡ is_some (get m.workflow_pending_approval_seconds id)

get-mark :
    (now : ℕ) (task_id : String) (o : Option ℕ) (c : Dict String ℕ × List String) (id : String)
    → get (mark now task_id o c).0 id ≡ due now task_id o id (get c.0 id)
get-mark now task_id none c id = refl
get-mark now task_id (some since) (gauge, current) id = get-put gauge task_id id (now - since)

get-observe :
    (now : ℕ) (ss : List ApprovalStatusSnapshot) (c : Dict String ℕ × List String) (id : String)
    → get (observe now ss c).0 id ≡ shown now ss id (get c.0 id)
unfolding observe shown
get-observe now [] c id = refl
get-observe now (s ∷ ss) c id =
    get-observe now ss (mark now s.task_id s.pending_since_epoch_seconds c) id
    ∙ ap (shown now ss id) (get-mark now s.task_id s.pending_since_epoch_seconds c id)

-- An id that is marked has a value that is due, whatever was there before.
contains-mark :
    (now : ℕ) (task_id : String) (o : Option ℕ) (c : Dict String ℕ × List String) (id : String)
    → contains (mark now task_id o c).1 id
      ≡ (is_some (due now task_id o id none) || contains c.1 id)
unfolding contains
contains-mark now task_id none c id = refl
contains-mark now task_id (some since) (gauge, current) id = ground arith

due-or :
    (now : ℕ) (task_id : String) (o : Option ℕ) (id : String) (old : Option ℕ)
    → due now task_id o id old
      ≡ (if is_some (due now task_id o id none) then due now task_id o id none else old)
due-or now task_id none id old = refl
due-or now task_id (some since) id old = ground arith

shown-or :
    (now : ℕ) (ss : List ApprovalStatusSnapshot) (id : String) (old : Option ℕ)
    → shown now ss id old ≡ (if is_some (shown now ss id none) then shown now ss id none else old)
unfolding shown
shown-or now [] id old = refl
shown-or now (s ∷ ss) id old =
    let d = due now s.task_id s.pending_since_epoch_seconds id none in
    ground (
      arith,
      due-or now s.task_id s.pending_since_epoch_seconds id old,
      shown-or now ss id (due now s.task_id s.pending_since_epoch_seconds id old),
      shown-or now ss id d,
    )

contains-observe :
    (now : ℕ) (ss : List ApprovalStatusSnapshot) (c : Dict String ℕ × List String) (id : String)
    → contains (observe now ss c).1 id ≡ (is_some (shown now ss id none) || contains c.1 id)
unfolding observe shown
contains-observe now [] c id = refl
contains-observe now (s ∷ ss) c id =
    let d = due now s.task_id s.pending_since_epoch_seconds id none in
    ground (
      arith,
      contains-observe now ss (mark now s.task_id s.pending_since_epoch_seconds c) id,
      contains-mark now s.task_id s.pending_since_epoch_seconds c id,
      shown-or now ss id d,
    )

contains-difference :
    (ids current : List String) (id : String)
    → contains (difference ids current) id ≡ (contains ids id && not (contains current id))
unfolding difference contains
contains-difference [] current id = refl
contains-difference (j ∷ ids) current id = elim (Bool-cases (j == id)) [
  | inl same ↦
      rw ((eq_iff j id).0 same) (ground (arith, ==_refl id, contains-difference ids current id))
  | inr other ↦ ground (arith, contains-difference ids current id)
]

-- What stands at an id once the stale ones are removed.
values_after :
    {tracked current stale : Bool} {after kept : Option ℕ} (fresh old : Option ℕ)
    → tracked ≡ is_some old
    → current ≡ (is_some fresh || false)
    → kept ≡ (if is_some fresh then fresh else old)
    → after ≡ (if stale then none else kept)
    → stale ≡ (tracked && not current)
    → after ≡ fresh
values_after none none t c k a s = ground arith
values_after none (some x) t c k a s = ground arith
values_after (some y) old t c k a s = ground arith

-- If the ids that are tracked are those that the gauge has a value for, then so they are after a refresh,
-- whether there is an approval service, its call raises or it answers; and the gauge then has for each
-- workflow the age of its last pending snapshot in the answer, and no value for any other workflow.
pub refresh_pending_approval_metrics-IsTracked :
    (now : ℕ) (source : Source) (m : Metrics)
    → IsTracked m
    → let m' = refresh_pending_approval_metrics now source m in
      IsTracked m'
      × ((id : String)
          → get m'.workflow_pending_approval_seconds id ≡ shown now (snapshots_of source) id none)
unfolding refresh_pending_approval_metrics contains
refresh_pending_approval_metrics-IsTracked now source m tracked =
    let ss = snapshots_of source in
    let gauge = m.workflow_pending_approval_seconds in
    let c = observe now ss (gauge, []) in
    let values : (id : String)
        → get (remove_all c.0 (difference m.tracked c.1)) id ≡ shown now ss id none =
      λ id.
        values_after (shown now ss id none) (get gauge id) (tracked id)
          (contains-observe now ss (gauge, []) id)
          (get-observe now ss (gauge, []) id ∙ shown-or now ss id (get gauge id))
          (get-remove_all (difference m.tracked c.1) c.0 id)
          (contains-difference m.tracked c.1 id) in
    (
      λ id.
          contains-observe now ss (gauge, []) id
          ∙ or_nothing (is_some (shown now ss id none)) (contains [] id) refl
          ∙ ap is_some (sym (values id)),
      values,
    )
  where
    or_nothing : (a b : Bool) → b ≡ false → (a || b) ≡ a
    or_nothing a b h = ground (arith, h)
