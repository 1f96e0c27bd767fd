-- ===== src/TaskInfo/Layouts.antt =====
-- task_info.rs: which entry types are accepted as the layout of a task.
use ads_rs.Prelude.{
  ℕ, ◌+◌, ◌≤◌, ◌≡◌, ◌↔◌, inl, inr, refl, ap, sym, ◌∙◌, Bool, true, false, ◌&&◌, Option, none, some,
  List, [], ◌∷◌, leb, leb→le, le→leb, ◌==◌, ==_iff, ==-self, Bool-cases, Option-cases, All,
}
use ads_rs.Errors.{ok, ensure, ensure-eq_ok, ok-injective, >>=-eq_ok, Error}
use ads_rs.Client.State.{codes}
use ads_rs.Symbol.{Field, TypeInfo}
use ads_rs.TaskInfo.{
  Documented, TaskInfoLayout, check_field, check_fields, find, from_entry_type, is_documented,
  is_empty, is_name_offset, is_offset, is_task_name, name_offset, required, task_name_size,
  task_prefix_size,
}

-- The first field with a documented name has the place, the base type and the size of the document,
-- and is no array.
abbrev pub HasField : List Field → Documented → Type 0
HasField fields (name, offset, size, base_type) =
    (f : Field) × (find name fields ≡ some f)
    × (f.offset ≡ some offset)
    × (f.size ≡ size)
    × (f.base_type ≡ base_type)
    × (f.array ≡ [])

-- A task name of 64 bytes that lies behind the documented fields and inside the entry; or none.
abbrev pub HasName : TypeInfo → Option ℕ → Type 0
HasName entry none = find (codes "TaskName") entry.fields ≡ none
HasName entry (some offset) =
    HasField entry.fields (codes "TaskName", offset, task_name_size, 30)
    × (task_prefix_size ≤ offset)
    × (offset + task_name_size ≤ entry.size)

pub record IsAccepted (entry : TypeInfo) (layout : TaskInfoLayout) : Type 0 where
  pub entry_size : layout.entry_size ≡ entry.size
  pub whole_prefix : task_prefix_size ≤ entry.size
  pub fields : All (HasField entry.fields) required
  pub name : HasName entry layout.task_name_offset

both : (a b : Bool) → (a && b) ≡ true → (a ≡ true) × (b ≡ true)
both true b h = (refl, h)
both false b h = cc

is_offset_sound : (n : ℕ) (o : Option ℕ) → is_offset n o ≡ true → o ≡ some n
unfolding is_offset
is_offset_sound n none h = cc
is_offset_sound n (some o) h = ap some ((==_iff o n).0 h)

is_empty_sound : {A : Type 0} (as' : List A) → is_empty as' ≡ true → as' ≡ []
unfolding is_empty
is_empty_sound [] h = refl
is_empty_sound (a ∷ as') h = cc

ensure_sound : (t : Bool) (e : Error) {u : Unit {0}} → ensure t e ≡ ok u → t ≡ true
ensure_sound true e h = refl
ensure_sound false e h = cc

-- The tests of a field are those of the document.
is_documented_sound :
    (offset size base_type : ℕ) (f : Field)
    → (is_offset offset f.offset && f.size == size && f.base_type == base_type && is_empty f.array)
      ≡ true
    → (f.offset ≡ some offset) × (f.size ≡ size) × (f.base_type ≡ base_type) × (f.array ≡ [])
is_documented_sound offset size base_type f h =
    let here = is_offset offset f.offset in
    let (h1, s) = both (here && f.size == size && f.base_type == base_type) (is_empty f.array) h in
    let (h2, r) = both (here && f.size == size) (f.base_type == base_type) h1 in
    let (p, q) = both here (f.size == size) h2 in
    (
      is_offset_sound offset f.offset p,
      (==_iff f.size size).0 q,
      (==_iff f.base_type base_type).0 r,
      is_empty_sound f.array s,
    )

is_documented_complete :
    (offset size base_type : ℕ) (f : Field)
    → f.offset ≡ some offset
    → f.size ≡ size
    → f.base_type ≡ base_type
    → f.array ≡ []
    → (is_offset offset f.offset && f.size == size && f.base_type == base_type && is_empty f.array)
      ≡ true
unfolding is_offset is_empty
is_documented_complete offset size base_type f p q r s =
    rw (p, q, r, s, ==-self offset, ==-self size, ==-self base_type) refl

check_field_sound :
    (fields : List Field) (d : Documented) {u : Unit {0}}
    → check_field d (find d.0 fields) ≡ ok u
    → HasField fields d
unfolding check_field is_documented
check_field_sound fields (name, offset, size, base_type) h =
    elim (Option-cases (find name fields)) [
      | inl e ↦ let h' = rw e at h in absurd (cc)
      | inr (f, e) ↦
          let h' = rw e at h in
          let (p, q, r, s) = is_documented_sound offset size base_type f (ensure_sound _ _ h') in
          (f, e, p, q, r, s)
    ]

check_field_complete :
    (fields : List Field) (d : Documented)
    → HasField fields d
    → check_field d (find d.0 fields) ≡ ok tt
unfolding check_field is_documented
check_field_complete fields (name, offset, size, base_type) (f, e, p, q, r, s) =
    rw (e, is_documented_complete offset size base_type f p q r s) refl

check_fields_sound :
    (ds : List Documented) (fields : List Field) {u : Unit {0}}
    → check_fields ds fields ≡ ok u
    → All (HasField fields) ds
unfolding check_fields
check_fields_sound [] fields h = tt
check_fields_sound (d ∷ ds) fields h =
    let (u, e, h') = >>=-eq_ok (check_field d (find d.0 fields)) _ h in
    (check_field_sound fields d e, check_fields_sound ds fields h')

check_fields_complete :
    (ds : List Documented) (fields : List Field)
    → All (HasField fields) ds
    → check_fields ds fields ≡ ok tt
unfolding check_fields
check_fields_complete [] fields h = refl
check_fields_complete (d ∷ ds) fields h =
    rw (check_field_complete fields d h.0, check_fields_complete ds fields h.1) refl

is_name_offset_sound :
    (entry_size : ℕ) (o : Option ℕ)
    → is_name_offset entry_size o ≡ true
    → (offset : ℕ) × (o ≡ some offset)
      × (task_prefix_size ≤ offset)
      × (offset + task_name_size ≤ entry_size)
unfolding is_name_offset
is_name_offset_sound entry_size none h = cc
is_name_offset_sound entry_size (some o) h =
    let (p, q) = both (leb task_prefix_size o) (leb (o + task_name_size) entry_size) h in
    (o, refl, leb→le task_prefix_size o p, leb→le (o + task_name_size) entry_size q)

name_offset_sound :
    (entry : TypeInfo) (r : Option ℕ)
    → name_offset entry.size (find (codes "TaskName") entry.fields) ≡ ok r
    → HasName entry r
unfolding name_offset is_task_name
name_offset_sound entry r h = elim (Option-cases (find (codes "TaskName") entry.fields)) [
  | inl e ↦ let h' : ok none ≡ ok r = rw e at h in rw (← ok-injective h') e
  | inr (f, e) ↦ elim (Bool-cases (is_task_name entry.size f)) [
    | inr bad ↦ let h' = rw (e, bad) at h in absurd (cc)
    | inl good ↦
        let h' : ok f.offset ≡ ok r = rw (e, good) at h in
        let here = is_name_offset entry.size f.offset in
        let (h1, t) =
          both (here && f.size == task_name_size && f.base_type == 30) (is_empty f.array) good in
        let (h2, s) = both (here && f.size == task_name_size) (f.base_type == 30) h1 in
        let (p, q) = both here (f.size == task_name_size) h2 in
        let (offset, at, low, high) = is_name_offset_sound entry.size f.offset p in
        let same : r ≡ some offset = sym (ok-injective h') ∙ at in
        rw same (
          (
            f,
            e,
            at,
            (==_iff f.size task_name_size).0 q,
            (==_iff f.base_type 30).0 s,
            is_empty_sound f.array t,
          ),
          low,
          high,
        )
  ]
]

name_offset_complete :
    (entry : TypeInfo) (r : Option ℕ)
    → HasName entry r
    → name_offset entry.size (find (codes "TaskName") entry.fields) ≡ ok r
unfolding name_offset is_task_name is_name_offset is_empty
name_offset_complete entry none h = rw h refl
name_offset_complete entry (some offset) ((f, e, p, q, r, s), low, high) =
    rw
      (
        e,
        p,
        q,
        r,
        s,
        le→leb task_prefix_size offset low,
        le→leb (offset + task_name_size) entry.size high,
      )
      refl

-- An entry type is accepted as the layout of a task exactly if it is as long as the documented
-- fields, has each of them at its place, with its size and base type and as no array, and has no
-- field `TaskName` or one of 64 bytes that lies behind the documented fields and inside the entry;
-- and then the layout has the size of the entry and the offset of that name.
pub from_entry_type_iff :
    (entry : TypeInfo) (layout : TaskInfoLayout)
    → (from_entry_type entry ≡ ok layout) ↔ IsAccepted entry layout
unfolding from_entry_type
from_entry_type_iff entry layout = (
  λ h.
      let (long, h1) = ensure-eq_ok (leb task_prefix_size entry.size) _ _ h in
      let (u, fields, h2) = >>=-eq_ok (check_fields required entry.fields) _ h1 in
      let (offset, name, h3) =
        >>=-eq_ok (name_offset entry.size (find (codes "TaskName") entry.fields)) _ h2 in
      let e = ok-injective h3 in
      rw (← e) (record {
        entry_size = refl;
        whole_prefix = leb→le task_prefix_size entry.size long;
        fields = check_fields_sound required entry.fields fields;
        name = name_offset_sound entry offset name;
      }),
  λ h.
      rw
        (
          le→leb task_prefix_size entry.size h.whole_prefix,
          check_fields_complete required entry.fields h.fields,
          name_offset_complete entry layout.task_name_offset h.name,
          ← h.entry_size,
        )
        refl,
)
