-- ===== src/Store/MergeWait.antt =====
-- The table merge_wait of hollysys_controller/store.py: why a run cannot be merged, and since when.
use hermes_agents_by_kanban.Prelude.{
  ℕ, ◌+◌, ◌≡◌, refl, sym, ap, ◌∙◌, ◌↔◌, String, Bool, false, not, ◌&&◌, Option, none, some, List,
  [], ◌∷◌, arith, ◌==◌, clip, if◌then◌else◌, text_eq, option_eq, option_beq, option_beq_iff,
  beq_refl, eq_iff,
}
use hermes_agents_by_kanban.Table.{lookup, put, delete, lookup-put}
use hermes_agents_by_kanban.Store.Runs.{MergeWait, RunStore}

-- The evidence of one report: the keyword arguments of `set_merge_wait`.
pub record Blocker : Type 0 where
  pub mr_iid : ℕ
  pub head_sha : Option String
  pub blocker_kind : String
  pub blocker : String
  pub blocker_url : Option String
  pub blocker_owner : Option String
  pub blocker_updated_at : Option String
  pub retry_seconds : ℕ

unfoldable pub merge_wait : String → RunStore → Option MergeWait
merge_wait run_key s = lookup run_key s.merge_wait

unfoldable pub same_identity : Blocker → MergeWait → Bool
same_identity b w = option_beq w.head_sha b.head_sha && w.blocker_kind == b.blocker_kind

unfoldable pub same_evidence : Blocker → MergeWait → Bool
unfolding same_identity
same_evidence b w =
    same_identity b w
    && w.blocker == clip 1000 b.blocker
    && option_beq w.blocker_url b.blocker_url
    && option_beq w.blocker_owner b.blocker_owner
    && option_beq w.blocker_updated_at b.blocker_updated_at

-- previous is not None and ...
abbrev pub holds_of : (MergeWait → Bool) → Option MergeWait → Bool
holds_of test none = false
holds_of test (some w) = test w

abbrev pub first_seen : ℕ → Blocker → Option MergeWait → ℕ
first_seen now b none = now
first_seen now b (some w) = if same_identity b w then w.first_seen_at else now

unfoldable pub wait_row : ℕ → Blocker → Option MergeWait → MergeWait
wait_row now b previous = record {
  mr_iid = b.mr_iid;
  head_sha = b.head_sha;
  blocker_kind = b.blocker_kind;
  blocker = clip 1000 b.blocker;
  blocker_url = b.blocker_url;
  blocker_owner = b.blocker_owner;
  blocker_updated_at = b.blocker_updated_at;
  first_seen_at = first_seen now b previous;
  last_checked_at = now;
  next_retry_at = now + b.retry_seconds;
}

-- The stored row, and `result["changed"]`.
unfoldable pub set_merge_wait : ℕ → String → Blocker → RunStore → (MergeWait × Bool) × RunStore
unfolding merge_wait
set_merge_wait now run_key b s =
    let previous = merge_wait run_key s in
    let row = wait_row now b previous in
    (
      (row, not (holds_of (same_evidence b) previous)),
      record s { merge_wait = put run_key row s.merge_wait },
    )

unfoldable pub clear_merge_wait : String → RunStore → RunStore
clear_merge_wait run_key s = record s { merge_wait = delete run_key s.merge_wait }

-- The reports of one run, in order, each with its time.
unfoldable pub report_all : String → List (ℕ × Blocker) → RunStore → RunStore
report_all run_key [] s = s
report_all run_key ((now, b) ∷ rest) s = report_all run_key rest (set_merge_wait now run_key b s).1

pub merge_wait-set_merge_wait :
    (now : ℕ) (k : String) (b : Blocker) (s : RunStore)
    → merge_wait k (set_merge_wait now k b s).1 ≡ some (wait_row now b (merge_wait k s))
unfolding merge_wait set_merge_wait
merge_wait-set_merge_wait now k b s =
    ground (arith, lookup-put k k (wait_row now b (lookup k s.merge_wait)) s.merge_wait, beq_refl k)

-- Every report of the list is about this head and this kind of blocker.
abbrev pub AllAbout : Option String → String → List (ℕ × Blocker) → Type 0
AllAbout head kind [] = Unit
AllAbout head kind ((now, b) ∷ rest) =
    (b.head_sha ≡ head) × (b.blocker_kind ≡ kind) × AllAbout head kind rest

since_kept :
    (now : ℕ) (b : Blocker) (w : MergeWait)
    → w.head_sha ≡ b.head_sha
    → w.blocker_kind ≡ b.blocker_kind
    → (wait_row now b (some w)).first_seen_at ≡ w.first_seen_at
unfolding wait_row same_identity
since_kept now b w h k =
    ground (arith, (option_beq_iff w.head_sha b.head_sha).1 h, eq_iff w.blocker_kind b.blocker_kind)

-- However often a blocker of one kind is reported for one head, whatever its text, links and owner,
-- the run counts as blocked since the time of the first report.
pub report_all_since :
    (k : String) (head : Option String) (kind : String) (reports : List (ℕ × Blocker))
    (w : MergeWait) (s : RunStore)
    → merge_wait k s ≡ some w
    → w.head_sha ≡ head
    → w.blocker_kind ≡ kind
    → AllAbout head kind reports
    → (w' : MergeWait) × (merge_wait k (report_all k reports s) ≡ some w')
      × (w'.first_seen_at ≡ w.first_seen_at)
      × (w'.head_sha ≡ head)
      × (w'.blocker_kind ≡ kind)
unfolding report_all wait_row
report_all_since k head kind [] w s e h q all = (w, e, refl, h, q)
report_all_since k head kind ((now, b) ∷ rest) w s e h q (bh, bk, all) =
    let (w', e', seen, h', q') =
      report_all_since k head kind rest (wait_row now b (some w)) (set_merge_wait now k b s).1
        (merge_wait-set_merge_wait now k b s ∙ ap (λ o. some (wait_row now b o)) e) bh bk all in
    (w', e', seen ∙ since_kept now b w (h ∙ sym bh) (q ∙ sym bk), h', q')

-- A report with the evidence of the row before it is not a change, and any other report is.
pub set_merge_wait_changed :
    (now : ℕ) (k : String) (b : Blocker) (s : RunStore) (w : MergeWait)
    → merge_wait k s ≡ some w
    → ((set_merge_wait now k b s).0.1 ≡ false) ↔ (
        (w.head_sha ≡ b.head_sha)
        × (w.blocker_kind ≡ b.blocker_kind)
        × (w.blocker ≡ clip 1000 b.blocker)
        × (w.blocker_url ≡ b.blocker_url)
        × (w.blocker_owner ≡ b.blocker_owner)
        × (w.blocker_updated_at ≡ b.blocker_updated_at))
unfolding set_merge_wait same_evidence
set_merge_wait_changed now k b s w e = (
  λ h. ground (
    arith,
    option_beq_iff w.head_sha b.head_sha,
    eq_iff w.blocker_kind b.blocker_kind,
    eq_iff w.blocker (clip 1000 b.blocker),
    option_beq_iff w.blocker_url b.blocker_url,
    option_beq_iff w.blocker_owner b.blocker_owner,
    option_beq_iff w.blocker_updated_at b.blocker_updated_at,
  ),
  λ h. ground (
    arith,
    option_beq_iff w.head_sha b.head_sha,
    eq_iff w.blocker_kind b.blocker_kind,
    eq_iff w.blocker (clip 1000 b.blocker),
    option_beq_iff w.blocker_url b.blocker_url,
    option_beq_iff w.blocker_owner b.blocker_owner,
    option_beq_iff w.blocker_updated_at b.blocker_updated_at,
  ),
)
