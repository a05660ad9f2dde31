-- ===== src/Snmp/Reads.antt =====
-- internal/snmp/gosnmp_client.go: what `GetIdentity` reads.
use maga.Base.{
  ℕ, ◌-◌, ◌^◌, ◌%◌, pos, negsuc, ◌||◌, ◌==◌, ◌⊎◌, arith, ap, codes, ◌≡◌, refl, ◌∙◌, Bool, true,
  false, List, [], ◌∷◌, Option, none, some, Str, str_eq, if◌then◌else◌, Bool-cases, Option-cases,
  inl, inr, str_eq_iff,
}
use maga.Go.Strconv.{itoa, format_int}
use maga.Discovery.Orchestrator.{Identity}
use maga.Snmp.{
  PduValue, bytes, text, uint32, uint, int, nil, another, SnmpPdu, normalize_oid, pdu_string,
  pdu_uint32, oid_sys_descr, oid_sys_object_id, oid_sys_up_time, oid_sys_name, read_variable,
  read_variables,
}

-- The name of a variable is an OID, or a dot and the OID.
abbrev pub is_named : Str → Str → Bool
is_named name oid = str_eq name oid || str_eq name (b'.' ∷ oid)

-- An OID begins with a digit.
abbrev pub IsUndotted : Str → Type 0
IsUndotted [] = ⊥
IsUndotted (c ∷ s) = (c == b'.') ≡ false

pub is_named-normalize_oid :
    (name oid : Str) → IsUndotted oid → str_eq (normalize_oid name) oid ≡ is_named name oid
unfolding normalize_oid str_eq
is_named-normalize_oid name [] h = absurd h
is_named-normalize_oid [] (c ∷ o) h = refl
is_named-normalize_oid (d ∷ s) (c ∷ o) h = elim (Bool-cases (d == b'.')) [
  | inl dot ↦
      let same : d ≡ b'.' = ground arith in
      let differs : (b'.' == c) ≡ false = ground arith in rw (dot, same, differs) refl
  | inr other ↦ rw other (ground arith)
]

-- The value of the last variable of an OID.
unfoldable pub last_value : Str → List SnmpPdu → Option PduValue
unfolding str_eq
last_value oid [] = none
last_value oid (v ∷ vs) = elim (last_value oid vs) [
  | some x ↦ some x
  | none ↦ if is_named v.name oid then some v.value else none
]

abbrev pub value_or : {A : Type 0} → (PduValue → A) → A → Option PduValue → A
value_or f old none = old
value_or f old (some v) = f v

apart : (x a b : Str) → str_eq a b ≡ false → str_eq x a ≡ true → str_eq x b ≡ false
apart x a b d h = let same : x ≡ a = (str_eq_iff x a).0 h in rw same d

-- The switch of the loop, on the tests of its four cases.
abbrev switch : Bool → Bool → Bool → Bool → PduValue → Identity → Identity
switch descr object name time v i =
    if descr
    then record i { sys_descr = pdu_string v }
    else if object
    then record i { sys_object_id = normalize_oid (pdu_string v) }
    else if name
    then record i { sys_name = pdu_string v }
    else if time
    then record i { sys_up_time = pdu_uint32 v }
    else i

module _ (v : PduValue) (i : Identity) where
  switch_descr :
      (a b c d : Bool) → (switch a b c d v i).sys_descr ≡ (if a then pdu_string v else i.sys_descr)
  switch_descr true b c d = refl
  switch_descr false true c d = refl
  switch_descr false false true d = refl
  switch_descr false false false true = refl
  switch_descr false false false false = refl

  switch_object :
      (a b c d : Bool)
      → (a ≡ true → b ≡ false)
      → (switch a b c d v i).sys_object_id
        ≡ (if b then normalize_oid (pdu_string v) else i.sys_object_id)
  switch_object true b c d h = rw (h refl) refl
  switch_object false true c d h = refl
  switch_object false false true d h = refl
  switch_object false false false true h = refl
  switch_object false false false false h = refl

  switch_name :
      (a b c d : Bool)
      → (a ≡ true → c ≡ false)
      → (b ≡ true → c ≡ false)
      → (switch a b c d v i).sys_name ≡ (if c then pdu_string v else i.sys_name)
  switch_name true b c d h k = rw (h refl) refl
  switch_name false true c d h k = rw (k refl) refl
  switch_name false false true d h k = refl
  switch_name false false false true h k = refl
  switch_name false false false false h k = refl

  switch_time :
      (a b c d : Bool)
      → (a ≡ true → d ≡ false)
      → (b ≡ true → d ≡ false)
      → (c ≡ true → d ≡ false)
      → (switch a b c d v i).sys_up_time ≡ (if d then pdu_uint32 v else i.sys_up_time)
  switch_time true b c d h k m = rw (h refl) refl
  switch_time false true c d h k m = rw (k refl) refl
  switch_time false false true d h k m = rw (m refl) refl
  switch_time false false false true h k m = refl
  switch_time false false false false h k m = refl

-- The four OIDs differ.
oids_differ :
    (str_eq oid_sys_descr oid_sys_object_id ≡ false)
    × (str_eq oid_sys_descr oid_sys_name ≡ false)
    × (str_eq oid_sys_descr oid_sys_up_time ≡ false)
    × (str_eq oid_sys_object_id oid_sys_name ≡ false)
    × (str_eq oid_sys_object_id oid_sys_up_time ≡ false)
    × (str_eq oid_sys_name oid_sys_up_time ≡ false)
unfolding str_eq
oids_differ = (refl, refl, refl, refl, refl, refl)

module _ (v : SnmpPdu) (i : Identity) where
  abbrev is : Str → Bool
  is oid = str_eq (normalize_oid v.name) oid

  abbrev Reads : Identity → Type 0
  Reads r =
      (r.sys_descr ≡ (if is oid_sys_descr then pdu_string v.value else i.sys_descr))
      × (r.sys_object_id
          ≡ (if is oid_sys_object_id then normalize_oid (pdu_string v.value) else i.sys_object_id))
      × (r.sys_name ≡ (if is oid_sys_name then pdu_string v.value else i.sys_name))
      × (r.sys_up_time ≡ (if is oid_sys_up_time then pdu_uint32 v.value else i.sys_up_time))

  reads : Reads (read_variable v i)
  reads =
      let oid = normalize_oid v.name in
      let a = is oid_sys_descr in
      let b = is oid_sys_object_id in
      let c = is oid_sys_name in
      let d = is oid_sys_up_time in
      let (ab, ac, ad, bc, bd, cd) = oids_differ in
      (
        switch_descr v.value i a b c d,
        switch_object v.value i a b c d (apart oid oid_sys_descr oid_sys_object_id ab),
        switch_name v.value i a b c d (apart oid oid_sys_descr oid_sys_name ac)
            (apart oid oid_sys_object_id oid_sys_name bc),
        switch_time v.value i a b c d (apart oid oid_sys_descr oid_sys_up_time ad)
            (apart oid oid_sys_object_id oid_sys_up_time bd)
            (apart oid oid_sys_name oid_sys_up_time cd),
      )

value_or-last :
    {A : Type 0}
    → (f : PduValue → A) (oid : Str) (v : SnmpPdu) (vs : List SnmpPdu) (old new : A)
    → IsUndotted oid
    → new ≡ (if str_eq (normalize_oid v.name) oid then f v.value else old)
    → value_or f new (last_value oid vs) ≡ value_or f old (last_value oid (v ∷ vs))
unfolding last_value
value_or-last f oid v vs old new undotted h =
    let named : new ≡ (if is_named v.name oid then f v.value else old) =
      h ∙ ap (λ b. if b then f v.value else old) (is_named-normalize_oid v.name oid undotted) in
    elim (Option-cases (last_value oid vs)) [
      | inr (x, e) ↦ rw e refl
      | inl e ↦ elim (Bool-cases (is_named v.name oid)) [
        | inl same ↦ rw (e, same) (named ∙ rw same refl)
        | inr differ ↦ rw (e, differ) (named ∙ rw differ refl)
      ]
    ]

read_variables_last :
    (vs : List SnmpPdu) (i : Identity)
    → let r = read_variables vs i in
      (r.sys_descr ≡ value_or pdu_string i.sys_descr (last_value oid_sys_descr vs))
      × (r.sys_object_id
          ≡ value_or
              (λ v. normalize_oid (pdu_string v))
              i.sys_object_id
              (last_value oid_sys_object_id vs))
      × (r.sys_name ≡ value_or pdu_string i.sys_name (last_value oid_sys_name vs))
      × (r.sys_up_time ≡ value_or pdu_uint32 i.sys_up_time (last_value oid_sys_up_time vs))
unfolding read_variables last_value
read_variables_last [] i = (refl, refl, refl, refl)
read_variables_last (v ∷ vs) i =
    let j = read_variable v i in
    let (descr, object, name, time) = read_variables_last vs j in
    let (d, o, n, t) = reads v i in
    (
      descr ∙ value_or-last pdu_string oid_sys_descr v vs i.sys_descr j.sys_descr refl d,
      object
          ∙ value_or-last (λ x. normalize_oid (pdu_string x)) oid_sys_object_id v vs i.sys_object_id
              j.sys_object_id refl o,
      name ∙ value_or-last pdu_string oid_sys_name v vs i.sys_name j.sys_name refl n,
      time ∙ value_or-last pdu_uint32 oid_sys_up_time v vs i.sys_up_time j.sys_up_time refl t,
    )

abbrev head_or : ℕ → Str → ℕ
head_or d [] = d
head_or d (c ∷ s) = c

-- What the values of a response mean. A text is that of the bytes or the string, or what the number or the other
-- value is printed as.
abbrev pub IsText : PduValue → Str → Type 0
IsText (bytes b) s = s ≡ b
IsText (text b) s = s ≡ b
IsText (uint32 n) s = s ≡ itoa n
IsText (uint n) s = s ≡ itoa n
IsText (int z) s = s ≡ format_int z
IsText nil s = s ≡ codes "<nil>"
IsText (another b) s = s ≡ b

-- An object id is such a text, without the dot that it may begin with.
abbrev pub IsObjectId : PduValue → Str → Type 0
IsObjectId v s =
    (raw : Str) × IsText v raw
    × ((raw ≡ b'.' ∷ s) ⊎ ((raw ≡ s) × ((rest : Str) → raw ≡ b'.' ∷ rest → ⊥)))

-- A number of ticks is a number of 32 bits, to which others are cut; what is no number counts as 0.
abbrev pub IsTicks : PduValue → ℕ → Type 0
IsTicks (uint32 n) t = t ≡ n
IsTicks (uint n) t = t ≡ n % 2 ^ 32
IsTicks (int (pos n)) t = t ≡ n % 2 ^ 32
IsTicks (int (negsuc n)) t = t ≡ 2 ^ 32 - 1 - n % 2 ^ 32
IsTicks _ t = t ≡ 0

-- A field is read from the value of its OID, or keeps what it was if there is none.
abbrev pub IsRead : {A : Type 0} → (PduValue → A → Type 0) → A → Option PduValue → A → Type 0
IsRead means old none new = new ≡ old
IsRead means old (some v) new = means v new

pdu_string-IsText : (v : PduValue) → IsText v (pdu_string v)
unfolding pdu_string
pdu_string-IsText (bytes b) = refl
pdu_string-IsText (text b) = refl
pdu_string-IsText (uint32 n) = refl
pdu_string-IsText (uint n) = refl
pdu_string-IsText (int z) = refl
pdu_string-IsText nil = refl
pdu_string-IsText (another b) = refl

dotless : (c : ℕ) (s rest : Str) → (c == b'.') ≡ false → c ∷ s ≡ b'.' ∷ rest → ⊥
dotless c s rest other h = let same : c ≡ b'.' = ap (head_or 0) h in ground arith

normalized_cases :
    (raw : Str)
    → (raw ≡ b'.' ∷ normalize_oid raw)
      ⊎ ((raw ≡ normalize_oid raw) × ((rest : Str) → raw ≡ b'.' ∷ rest → ⊥))
unfolding normalize_oid
normalized_cases [] = inr (refl, λ rest h. cc)
normalized_cases (c ∷ s) = elim (Bool-cases (c == b'.')) [
  | inl dot ↦ let same : c ≡ b'.' = ground arith in inl (rw dot (ap (λ d. d ∷ s) same))
  | inr other ↦ inr (rw other refl, λ rest h. dotless c s rest other h)
]

pdu_string-IsObjectId : (v : PduValue) → IsObjectId v (normalize_oid (pdu_string v))
pdu_string-IsObjectId v = (pdu_string v, pdu_string-IsText v, normalized_cases (pdu_string v))

pdu_uint32-IsTicks : (v : PduValue) → IsTicks v (pdu_uint32 v)
unfolding pdu_uint32
pdu_uint32-IsTicks (bytes b) = refl
pdu_uint32-IsTicks (text b) = refl
pdu_uint32-IsTicks (uint32 n) = refl
pdu_uint32-IsTicks (uint n) = refl
pdu_uint32-IsTicks (int (pos n)) = refl
pdu_uint32-IsTicks (int (negsuc n)) = refl
pdu_uint32-IsTicks nil = refl
pdu_uint32-IsTicks (another b) = refl

value_or-IsRead :
    {A : Type 0} (means : PduValue → A → Type 0) (f : PduValue → A) (old new : A)
    → ((v : PduValue) → means v (f v))
    → (o : Option PduValue) → new ≡ value_or f old o
    → IsRead means old o new
value_or-IsRead means f old new meant none h = h
value_or-IsRead means f old new meant (some v) h = rw h (meant v)

-- The loop over the variables of a response sets each field of the identity from the last variable of its OID,
-- in whatever order the variables come and whether or not their names begin with a dot; a field whose OID has
-- no variable keeps its value, and a variable of another OID counts for nothing. The description and the name are
-- the texts of their values, the object id is that without a dot at its start, and the up time is a number of 32
-- bits, or 0 for a value that is no number.
pub read_variables_lem :
    (vs : List SnmpPdu) (i : Identity)
    → let r = read_variables vs i in
      IsRead IsText i.sys_descr (last_value oid_sys_descr vs) r.sys_descr
      × IsRead IsObjectId i.sys_object_id (last_value oid_sys_object_id vs) r.sys_object_id
      × IsRead IsText i.sys_name (last_value oid_sys_name vs) r.sys_name
      × IsRead IsTicks i.sys_up_time (last_value oid_sys_up_time vs) r.sys_up_time
read_variables_lem vs i =
    let r = read_variables vs i in
    let (descr, object, name, time) = read_variables_last vs i in
    (
      value_or-IsRead IsText pdu_string i.sys_descr r.sys_descr pdu_string-IsText
          (last_value oid_sys_descr vs) descr,
      value_or-IsRead IsObjectId (λ v. normalize_oid (pdu_string v)) i.sys_object_id r.sys_object_id
          pdu_string-IsObjectId (last_value oid_sys_object_id vs) object,
      value_or-IsRead IsText pdu_string i.sys_name r.sys_name pdu_string-IsText
          (last_value oid_sys_name vs) name,
      value_or-IsRead IsTicks pdu_uint32 i.sys_up_time r.sys_up_time pdu_uint32-IsTicks
          (last_value oid_sys_up_time vs) time,
    )
