-- ===== src/Scratch/Marked.antt =====
-- The marks of a scratch claim.
use text.Mathlib.TextEquality.{eq_iff}
use portage.Base.{
  String, ◌==◌, ◌≡◌, refl, ◌↔◌, inl, inr, Bool, true, false, not, ◌||◌, none, [], ◌∷◌, All, arith,
  Bool-cases, if◌then◌else◌, Map, lookup, get, insert, lookup-insert,
}
use portage.Kube.{PersistentVolumeClaim}
use portage.Scratch.{annotation_marks, label_marks, mark_from, ensure_scratch_marks}

-- No key is there twice.
IsDistinct : Map String → Type 0
IsDistinct [] = Unit
IsDistinct ((k, v) ∷ marks) = (lookup k marks ≡ none) × IsDistinct marks

-- Every mark is there with its value.
abbrev pub HasMarks : Map String → Map String → Type 0
HasMarks marks m = All (λ (k, v). (get "" k m == v) ≡ true) marks

-- What one iteration leaves.
abbrev put : String → String → Map String → Map String
put k v m = if not (get "" k m == v) then insert k v m else m

get-put :
    (k v wanted : String) (m : Map String)
    → get "" wanted (put k v m) ≡ (if k == wanted then v else get "" wanted m)
unfolding get
get-put k v wanted m =
    ground (arith, lookup-insert k v m wanted, eq_iff k wanted, eq_iff (get "" k m) v)

mark_from-get :
    (marks : Map String)
    → IsDistinct marks
    → (m : Map String) (wanted : String)
    → get "" wanted (mark_from marks m).0 ≡ get (get "" wanted m) wanted marks
unfolding mark_from get lookup IsDistinct
mark_from-get [] distinct m wanted = refl
mark_from-get ((k, v) ∷ marks) (absent, distinct) m wanted = ground (
  arith,
  mark_from-get marks distinct (put k v m) wanted,
  get-put k v wanted m,
  eq_iff k wanted,
  absent,
)

mark_from-changed : (marks m : Map String) → ((mark_from marks m).1 ≡ false) ↔ HasMarks marks m
unfolding mark_from
mark_from-changed [] m = ground arith
mark_from-changed ((k, v) ∷ marks) m = elim (Bool-cases (get "" k m == v)) [
  | inl there ↦ rw there (ground (arith, mark_from-changed marks m))
  | inr other ↦ rw other (ground arith)
]

mark_from-same : (marks m : Map String) → (mark_from marks m).1 ≡ false → (mark_from marks m).0 ≡ m
unfolding mark_from
mark_from-same [] m h = refl
mark_from-same ((k, v) ∷ marks) m h =
    let there : (get "" k m == v) ≡ true = ground (arith, h) in
    let rest : (mark_from marks m).1 ≡ false = ground (arith, h, there) in
    rw there (mark_from-same marks m rest)

-- A claim whose maps are not changed is the same.
same_claim :
    (annotations labels : Map String) (pvc : PersistentVolumeClaim)
    → annotations ≡ pvc.annotations
    → labels ≡ pvc.labels
    → record pvc { annotations = annotations; labels = labels } ≡ pvc
same_claim annotations labels pvc a l = λ i. record pvc { annotations = a i; labels = l i }

either_not : (a b : Bool) → (a || b) ≡ false → (a ≡ false) × (b ≡ false)
either_not a b h = ground (arith, h)

-- What the marks leave of a claim, and when they change it.
pub record IsMarked (pvc marked : PersistentVolumeClaim) (changed : Bool) : Type 0 where
  pub annotations :
      (k : String) → get "" k marked.annotations ≡ get (get "" k pvc.annotations) k annotation_marks
  pub labels : (k : String) → get "" k marked.labels ≡ get (get "" k pvc.labels) k label_marks
  pub changes :
      (changed ≡ false)
      ↔ (HasMarks annotation_marks pvc.annotations × HasMarks label_marks pvc.labels)
  pub stays : changed ≡ false → marked ≡ pvc

-- `ensureScratchMarks` gives every mark its value and leaves every other annotation and label as it is.
-- It reports a change exactly if a mark was missing or had another value, and without one the
-- claim is the same.
pub ensure_scratch_marks-IsMarked :
    (pvc : PersistentVolumeClaim)
    → IsMarked pvc (ensure_scratch_marks pvc).0 (ensure_scratch_marks pvc).1
unfolding ensure_scratch_marks IsDistinct lookup
ensure_scratch_marks-IsMarked pvc = record {
  annotations =
      λ k. mark_from-get annotation_marks (refl, (refl, (refl, (refl, tt)))) pvc.annotations k;
  labels = λ k. mark_from-get label_marks (refl, (refl, tt)) pvc.labels k;
  changes = ground (
    arith,
    mark_from-changed annotation_marks pvc.annotations,
    mark_from-changed label_marks pvc.labels,
  );
  stays = λ h.
      let (noted, labelled) =
        either_not (mark_from annotation_marks pvc.annotations).1
          (mark_from label_marks pvc.labels).1 h in
      same_claim _ _ pvc (mark_from-same annotation_marks pvc.annotations noted)
        (mark_from-same label_marks pvc.labels labelled);
}
