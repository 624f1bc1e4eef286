-- ===== src/Reply/Args.antt =====
-- packages/iso4-sandbox/src/ipc.ts, the checks of `decodeBridgeCallPayload` on the arguments: they are an
-- array, and no array among them has a hole. What a blob decodes to is a graph of objects.
use iso.Base.{
  ℕ, zero, suc, ◌+◌, ◌≤◌, ◌≡◌, refl, Bool-cases, Bool, true, false, ◌||◌, Option, none, some, List,
  [], ◌∷◌, ◌++◌, Result, ok, err, ErrorKind, invalid_data, length, ltb, if◌then◌else◌, subst, arith,
  Option-cases, inl, inr,
}
use mathlib.Core.Option.{some-injective}
use iso.Wire.Bytes.{Bytes}

-- A value that is no object, or the object of that number.
pub data JsValue : Type 0 where
  primitive : JsValue
  object : ℕ → JsValue

-- What a decoded object holds. A slot of an array is none for a hole, and `named` are its other
-- properties. `leaf` is any object that is not looked into.
pub data JsObject : Type 0 where
  array : (slots : List (Option JsValue)) (named : List JsValue) → JsObject
  plain : (props : List JsValue) → JsObject
  map_of : (keys values : List JsValue) → JsObject
  set_of : (items : List JsValue) → JsObject
  error_of : (cause : JsValue) → JsObject
  leaf : JsObject

-- The objects by their numbers; one that has been seen is none.
abbrev pub Objects : Type 0
Objects = List (Option JsObject)

pub record JsArgs : Type 0 where
  pub root : JsValue
  pub objects : Objects

abbrev pub object_at : ℕ → Objects → Option JsObject
object_at n [] = none
object_at zero (o ∷ rest) = o
object_at (suc n) (o ∷ rest) = object_at n rest

abbrev pub seen_at : ℕ → Objects → Objects
seen_at n [] = []
seen_at zero (o ∷ rest) = none ∷ rest
seen_at (suc n) (o ∷ rest) = o ∷ seen_at n rest

abbrev pub unseen : Objects → ℕ
unseen [] = 0
unseen (none ∷ rest) = unseen rest
unseen (some o ∷ rest) = 1 + unseen rest

-- `stack.push` of each value that is an object.
abbrev pub pushed : List JsValue → List ℕ → List ℕ
pushed [] stack = stack
pushed (primitive ∷ items) stack = pushed items stack
pushed (object n ∷ items) stack = pushed items (n ∷ stack)

abbrev pub has_hole : List (Option JsValue) → Bool
has_hole [] = false
has_hole (none ∷ slots) = true
has_hole (some v ∷ slots) = has_hole slots

abbrev pub filled : List (Option JsValue) → List JsValue
filled [] = []
filled (none ∷ slots) = filled slots
filled (some v ∷ slots) = v ∷ filled slots

-- The values that the loop looks at, in its order.
abbrev pub items_of : JsObject → List JsValue
items_of (array slots named) = filled slots ++ named
items_of (plain props) = props
items_of (map_of keys values) = keys ++ values
items_of (set_of items) = items
items_of (error_of cause) = cause ∷ []
items_of leaf = []

abbrev pub slots_of : JsObject → ℕ
slots_of (array slots named) = length slots
slots_of _ = 0

-- An array that brings the slots beyond the blob's bytes, or has a hole.
abbrev pub refuses : ℕ → ℕ → JsObject → Bool
refuses blob_bytes slots (array items named) =
    ltb blob_bytes (slots + length items) || has_hole items
refuses blob_bytes slots _ = false

-- `unfinished` is never reached with as many rounds as there are objects.
pub data Verdict : Type 0 where
  accepted thrown unfinished : Verdict

-- The loop of `assertNoArrayHoles`: one round for each object that it has not seen.
unfoldable pub scan : ℕ → ℕ → Objects → List ℕ → ℕ → Verdict
scan blob_bytes n objects [] slots = accepted
scan blob_bytes zero objects (v ∷ stack) slots = elim (object_at v objects) [
  | none ↦ scan blob_bytes zero objects stack slots
  | some o ↦ unfinished
]
scan blob_bytes (suc n) objects (v ∷ stack) slots = elim (object_at v objects) [
  | none ↦ scan blob_bytes (suc n) objects stack slots
  | some o ↦
      if refuses blob_bytes slots o
      then thrown
      else scan blob_bytes n (seen_at v objects) (pushed (items_of o) stack) (slots + slots_of o)
]

unfoldable pub assert_no_array_holes : Objects → ℕ → ℕ → Verdict
unfolding scan
assert_no_array_holes objects root blob_bytes =
    scan blob_bytes (unseen objects) objects (root ∷ []) 0

abbrev pub verdict_on : {A : Type 0} → A → Verdict → Result ErrorKind A
verdict_on a accepted = ok a
verdict_on a thrown = err invalid_data
verdict_on a unfinished = err invalid_data

-- `Array.isArray`.
abbrev pub is_array : Option JsObject → Bool
is_array (some (array slots named)) = true
is_array _ = false

unfoldable pub checked_root : ℕ → JsArgs → JsValue → Result ErrorKind JsArgs
unfolding assert_no_array_holes
checked_root blob_bytes args primitive = err invalid_data
checked_root blob_bytes args (object root) =
    if is_array (object_at root args.objects)
    then verdict_on args (assert_no_array_holes args.objects root blob_bytes)
    else err invalid_data

-- The arguments of a call from their blob. `deserialize` is none where it throws.
unfoldable pub checked_args : (Bytes → Option JsArgs) → Bytes → Result ErrorKind JsArgs
unfolding checked_root
checked_args deserialize blob = elim (deserialize blob) [
  | none ↦ err invalid_data
  | some args ↦ checked_root (length blob) args args.root
]

-- No array has a hole.
abbrev pub IsWhole : JsObject → Type 0
IsWhole (array slots named) = has_hole slots ≡ false
IsWhole _ = Unit

abbrev pub AllWhole : Objects → Type 0
AllWhole [] = Unit
AllWhole (none ∷ rest) = AllWhole rest
AllWhole (some o ∷ rest) = IsWhole o × AllWhole rest

-- The slots of all the arrays.
abbrev pub all_slots : Objects → ℕ
all_slots [] = 0
all_slots (none ∷ rest) = all_slots rest
all_slots (some o ∷ rest) = slots_of o + all_slots rest

record Visit (v : ℕ) (objects : Objects) (o : JsObject) : Type 0 where
  fewer : 1 + unseen (seen_at v objects) ≡ unseen objects
  lighter : slots_of o + all_slots (seen_at v objects) ≡ all_slots objects
  whole : IsWhole o
  others : AllWhole (seen_at v objects)

object_at-Visit :
    (v : ℕ) (objects : Objects) (o : JsObject)
    → object_at v objects ≡ some o
    → AllWhole objects
    → Visit v objects o
object_at-Visit v [] o impossible a = cc
object_at-Visit zero (none ∷ rest) o impossible a = cc
object_at-Visit zero (some p ∷ rest) o h a =
    subst (Visit zero (some p ∷ rest)) (some-injective p o h)
      (record { fewer = refl; lighter = refl; whole = a.0; others = a.1 })
object_at-Visit (suc v) (none ∷ rest) o h a =
    let s = object_at-Visit v rest o h a in
    record { fewer = s.fewer; lighter = s.lighter; whole = s.whole; others = s.others }
object_at-Visit (suc v) (some p ∷ rest) o h a =
    let s = object_at-Visit v rest o h a.1 in
    record {
      fewer = omega (arith, s.fewer);
      lighter = omega (arith, s.lighter);
      whole = s.whole;
      others = (a.0, s.others);
    }

whole-passes :
    (blob_bytes slots : ℕ) (o : JsObject)
    → IsWhole o
    → slots + slots_of o ≤ blob_bytes
    → refuses blob_bytes slots o ≡ false
whole-passes blob_bytes slots (array items named) w h = rw w (ground arith)
whole-passes blob_bytes slots (plain props) w h = refl
whole-passes blob_bytes slots (map_of keys values) w h = refl
whole-passes blob_bytes slots (set_of items) w h = refl
whole-passes blob_bytes slots (error_of cause) w h = refl
whole-passes blob_bytes slots leaf w h = refl

-- Whole arrays whose slots are within the blob's bytes are accepted, and as many rounds as there are
-- objects are enough.
scan-accepts :
    (blob_bytes n : ℕ) (objects : Objects) (stack : List ℕ) (slots : ℕ)
    → unseen objects ≡ n
    → AllWhole objects
    → slots + all_slots objects ≤ blob_bytes
    → scan blob_bytes n objects stack slots ≡ accepted
unfolding scan
scan-accepts b n objects [] slots u a h = refl
scan-accepts b zero objects (v ∷ stack) slots u a h = elim (Option-cases (object_at v objects)) [
  | inl q ↦ rw (scan, q) (scan-accepts b zero objects stack slots u a h)
  | inr (o, q) ↦ absurd (omega (arith, u, (object_at-Visit v objects o q a).fewer))
]
scan-accepts b (suc n) objects (v ∷ stack) slots u a h = elim (Option-cases (object_at v objects)) [
  | inl q ↦ rw (scan, q) (scan-accepts b (suc n) objects stack slots u a h)
  | inr (o, q) ↦
      let s = object_at-Visit v objects o q a in
      rw (scan, q, whole-passes b slots o s.whole (omega (arith, h, s.lighter)))
        (scan-accepts b n (seen_at v objects) (pushed (items_of o) stack) (slots + slots_of o)
          (omega (arith, u, s.fewer)) s.others (omega (arith, h, s.lighter)))
]

unseen-seen_at :
    (v : ℕ) (objects : Objects) (o : JsObject)
    → object_at v objects ≡ some o
    → 1 + unseen (seen_at v objects) ≡ unseen objects
unseen-seen_at v [] o impossible = cc
unseen-seen_at zero (none ∷ rest) o impossible = cc
unseen-seen_at zero (some p ∷ rest) o h = refl
unseen-seen_at (suc v) (none ∷ rest) o h = unseen-seen_at v rest o h
unseen-seen_at (suc v) (some p ∷ rest) o h = let ih = unseen-seen_at v rest o h in omega (arith, ih)

-- As many rounds as there are objects are enough for any graph, with cycles or without.
scan-ends :
    (b n : ℕ) (objects : Objects) (stack : List ℕ) (slots : ℕ)
    → unseen objects ≡ n
    → ¬ (scan b n objects stack slots ≡ unfinished)
unfolding scan
scan-ends b n objects [] slots u = λ impossible. cc
scan-ends b zero objects (v ∷ stack) slots u = elim (Option-cases (object_at v objects)) [
  | inl q ↦ rw (scan, q) (scan-ends b zero objects stack slots u)
  | inr (o, q) ↦ absurd (omega (arith, u, unseen-seen_at v objects o q))
]
scan-ends b (suc n) objects (v ∷ stack) slots u = elim (Option-cases (object_at v objects)) [
  | inl q ↦ rw (scan, q) (scan-ends b (suc n) objects stack slots u)
  | inr (o, q) ↦ elim (Bool-cases (refuses b slots o)) [
    | inl r ↦ rw (scan, q, r) (λ impossible. cc)
    | inr r ↦
        rw (scan, q, r)
          (scan-ends b n (seen_at v objects) (pushed (items_of o) stack) (slots + slots_of o)
            (omega (arith, u, unseen-seen_at v objects o q)))
  ]
]

pub assert_no_array_holes-ends :
    (objects : Objects) (root blob_bytes : ℕ)
    → ¬ (assert_no_array_holes objects root blob_bytes ≡ unfinished)
unfolding assert_no_array_holes
assert_no_array_holes-ends objects root b = scan-ends b (unseen objects) objects (root ∷ []) 0 refl

holed-thrown :
    (b n : ℕ) (objects : Objects) (v : ℕ) (stack : List ℕ) (slots : ℕ)
    (items : List (Option JsValue)) (named : List JsValue)
    → object_at v objects ≡ some (array items named)
    → has_hole items ≡ true
    → scan b (suc n) objects (v ∷ stack) slots ≡ thrown
unfolding scan
holed-thrown b n objects v stack slots items named h q = rw (scan, h, q) (ground arith)

unseen-pos :
    (v : ℕ) (objects : Objects) (o : JsObject)
    → object_at v objects ≡ some o
    → (n : ℕ) × (unseen objects ≡ suc n)
unseen-pos v [] o impossible = cc
unseen-pos zero (none ∷ rest) o impossible = cc
unseen-pos zero (some p ∷ rest) o h = (unseen rest, omega arith)
unseen-pos (suc v) (none ∷ rest) o h = unseen-pos v rest o h
unseen-pos (suc v) (some p ∷ rest) o h = (unseen rest, omega arith)

-- What a blob of that length may decode to: an array among whole arrays, whose slots take a byte each;
-- no array; or an array with a hole.
pub data ArgsCase (blob_bytes : ℕ) (args : JsArgs) : Type 0 where
  whole :
      (root : ℕ) (items : List (Option JsValue)) (named : List JsValue)
      → args.root ≡ object root
      → object_at root args.objects ≡ some (array items named)
      → AllWhole args.objects
      → all_slots args.objects ≤ blob_bytes
      → ArgsCase blob_bytes args
  no_object : args.root ≡ primitive → ArgsCase blob_bytes args
  no_array :
      (root : ℕ)
      → args.root ≡ object root
      → is_array (object_at root args.objects) ≡ false
      → ArgsCase blob_bytes args
  holed :
      (root : ℕ) (items : List (Option JsValue)) (named : List JsValue)
      → args.root ≡ object root
      → object_at root args.objects ≡ some (array items named)
      → has_hole items ≡ true
      → ArgsCase blob_bytes args

-- What the host should make of them.
abbrev pub expected :
    {blob_bytes : ℕ} {args : JsArgs} {A : Type 0}
    → ArgsCase blob_bytes args
    → A
    → Result ErrorKind A
expected (whole root items named r h a s) x = ok x
expected (no_object r) x = err invalid_data
expected (no_array root r h) x = err invalid_data
expected (holed root items named r h q) x = err invalid_data

checked_root-expected :
    (blob_bytes : ℕ) (args : JsArgs) (k : ArgsCase blob_bytes args)
    → checked_root blob_bytes args args.root ≡ expected k args
unfolding checked_root assert_no_array_holes
checked_root-expected b args (whole root items named r h a s) =
    rw
      (
        r,
        h,
        scan-accepts b (unseen args.objects) args.objects (root ∷ []) 0 refl a (omega (arith, s)),
      )
      refl
checked_root-expected b args (no_object r) = rw r refl
checked_root-expected b args (no_array root r h) = rw (r, h) refl
checked_root-expected b args (holed root items named r h q) =
    let (n, u) = unseen-pos root args.objects (array items named) h in
    rw (r, h, u, holed-thrown b n args.objects root [] 0 items named h q) refl

pub checked_args-expected :
    (deserialize : Bytes → Option JsArgs) (blob : Bytes) (args : JsArgs)
    (k : ArgsCase (length blob) args)
    → deserialize blob ≡ some args
    → checked_args deserialize blob ≡ expected k args
unfolding checked_args
checked_args-expected deserialize blob args k h =
    rw (checked_args, h) (checked_root-expected (length blob) args k)
