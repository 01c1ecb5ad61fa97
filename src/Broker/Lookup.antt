-- ===== src/Broker/Lookup.antt =====
-- What a lookup finds in the runs of registry.py after an assignment, a sort and a pruning.
use memoriesql.Prelude.{
  ℕ, ◌+◌, ◌≡◌, refl, sym, ap, subst, ◌∙◌, String, Bool, true, false, Option, none, some, [], ◌∷◌,
  ltb, string_eq, ◌==◌, beq→eq, eq→beq, Result, ok, ◌>>=◌, >>=-eq-ok, if◌then◌else◌,
}
use memoriesql.Broker.Registry.{
  retain_after_expiry, Entry, Runs, Platform, lookup, assign_run, insert_sorted, sort_by,
  kept_entry, prune,
}

-- A dictionary: no key stands twice.
abbrev pub Unique : Runs → Type 0
Unique [] = Unit
Unique (x ∷ runs) = (lookup x.0 runs ≡ none) × Unique runs

if-again :
    {A : Type 0} (c : Bool) (x y z : A)
    → (if c then x else z) ≡ (if c then x else if c then y else z)
if-again true x y z = refl
if-again false x y z = refl

if-swap :
    {A : Type 0} (b c : Bool) (x y z : A)
    → (b ≡ true → c ≡ false)
    → (if b then x else if c then y else z) ≡ (if c then y else if b then x else z)
if-swap true true x y z apart = absurd (cc (apart refl))
if-swap true false x y z apart = refl
if-swap false true x y z apart = refl
if-swap false false x y z apart = refl

-- Two keys that differ are not both the one that is looked for.
apart : (a b k : String) → (a == b) ≡ false → (a == k) ≡ true → (b == k) ≡ false
apart a b k differ h = go _ refl
  where
    go : (c : Bool) → (b == k) ≡ c → c ≡ false
    go true h' = absurd (
        cc (
          sym differ
          ∙ eq→beq {A = String} a b (beq→eq {A = String} a k h ∙ sym (beq→eq {A = String} b k h'))))
    go false h' = refl

pub lookup-assign_run :
    (k ref : String) (entry : Entry) (runs : Runs)
    → lookup k (assign_run ref entry runs) ≡ (if ref == k then some entry else lookup k runs)
unfolding lookup assign_run
lookup-assign_run k ref entry [] = refl
lookup-assign_run k ref entry ((key, other) ∷ runs) = go _ refl (lookup-assign_run k ref entry runs)
  where
    go :
        (c : Bool)
        → (key == ref) ≡ c
        → lookup k (assign_run ref entry runs) ≡ (if ref == k then some entry else lookup k runs)
        → lookup k (if c then (key, entry) ∷ runs else (key, other) ∷ assign_run ref entry runs)
          ≡ (if ref == k then some entry else if key == k then some other else lookup k runs)
    go true h further =
        subst
          (λ r.
            (if key == k then some entry else lookup k runs)
            ≡ (if r == k then some entry else if key == k then some other else lookup k runs))
          (beq→eq {A = String} key ref h) (if-again (key == k) _ _ _)
    go false h further =
        ap (λ x. if key == k then some other else x) further
        ∙ if-swap (key == k) (ref == k) (some other) (some entry) (lookup k runs)
            (apart key ref k h)

-- A key that is not in the rest is where it is inserted.
lookup-insert_sorted :
    (py : Platform) (by : String × Entry → String) (k : String) (x : String × Entry) (runs : Runs)
    → lookup x.0 runs ≡ none
    → lookup k (insert_sorted py by x runs) ≡ (if x.0 == k then some x.1 else lookup k runs)
unfolding lookup insert_sorted
lookup-insert_sorted py by k x [] absent = refl
lookup-insert_sorted py by k x (y ∷ runs) absent =
    go _ (go_apart _ refl absent) (λ absent'. lookup-insert_sorted py by k x runs absent')
  where
    go_apart :
        (c : Bool)
        → (y.0 == x.0) ≡ c
        → (if c then some y.1 else lookup x.0 runs) ≡ none
        → ((y.0 == x.0) ≡ false) × (lookup x.0 runs ≡ none)
    go_apart true h found = absurd (cc found)
    go_apart false h found = (h, found)

    go :
        (c : Bool)
        → ((y.0 == x.0) ≡ false) × (lookup x.0 runs ≡ none)
        → (lookup x.0 runs ≡ none
            → lookup k (insert_sorted py by x runs)
              ≡ (if x.0 == k then some x.1 else lookup k runs))
        → lookup k (if c then x ∷ y ∷ runs else y ∷ insert_sorted py by x runs)
          ≡ (if x.0 == k then some x.1 else if y.0 == k then some y.1 else lookup k runs)
    go true facts further = refl
    go false facts further =
        ap (λ v. if y.0 == k then some y.1 else v) (further facts.1)
        ∙ if-swap (y.0 == k) (x.0 == k) (some y.1) (some x.1) (lookup k runs)
            (apart y.0 x.0 k facts.0)

if-none :
    (c : Bool) (e : Entry) (o : Option Entry)
    → c ≡ false
    → o ≡ none
    → (if c then some e else o) ≡ none
if-none true e o h absent = absurd (cc h)
if-none false e o h absent = absent

pub lookup-sort_by :
    (py : Platform) (by : String × Entry → String) (runs : Runs)
    → Unique runs
    → (k : String) → lookup k (sort_by py by runs) ≡ lookup k runs
unfolding lookup sort_by
lookup-sort_by py by [] unique k = refl
lookup-sort_by py by (x ∷ runs) (absent, unique) k =
    let same = lookup-sort_by py by runs unique in
    lookup-insert_sorted py by k x (sort_by py by runs) (same x.0 ∙ absent)
    ∙ ap (λ v. if x.0 == k then some x.1 else v) (same k)

-- What is absent of a list with one element more.
absent-cons :
    (k : String) (x : String × Entry) (runs : Runs)
    → lookup k (x ∷ runs) ≡ none
    → ((x.0 == k) ≡ false) × (lookup k runs ≡ none)
unfolding lookup
absent-cons k x runs h = go (x.0 == k) refl h
  where
    go :
        (c : Bool)
        → (x.0 == k) ≡ c
        → (if c then some x.1 else lookup k runs) ≡ none
        → ((x.0 == k) ≡ false) × (lookup k runs ≡ none)
    go true e found = absurd (cc found)
    go false e found = (e, found)

differ-sym : (a b : String) → (a == b) ≡ false → (b == a) ≡ false
differ-sym a b h = go _ refl
  where
    go : (c : Bool) → (b == a) ≡ c → c ≡ false
    go true e = absurd (cc (sym h ∙ eq→beq {A = String} a b (sym (beq→eq {A = String} b a e))))
    go false e = refl

Unique-insert_sorted :
    (py : Platform) (by : String × Entry → String) (x : String × Entry) (runs : Runs)
    → lookup x.0 runs ≡ none
    → Unique runs
    → Unique (insert_sorted py by x runs)
unfolding insert_sorted
Unique-insert_sorted py by x [] absent unique = (absent, tt)
Unique-insert_sorted py by x (y ∷ runs) absent (first, unique) =
    let (differ, absent') = absent-cons x.0 y runs absent in
    go _ differ absent' (Unique-insert_sorted py by x runs absent' unique)
  where
    go :
        (c : Bool)
        → (y.0 == x.0) ≡ false
        → lookup x.0 runs ≡ none
        → Unique (insert_sorted py by x runs)
        → Unique (if c then x ∷ y ∷ runs else y ∷ insert_sorted py by x runs)
    go true differ absent' further = (absent, (first, unique))
    go false differ absent' further = (
      lookup-insert_sorted py by y.0 x runs absent'
          ∙ if-none (x.0 == y.0) x.1 _ (differ-sym y.0 x.0 differ) first,
      further,
    )

pub Unique-sort_by :
    (py : Platform) (by : String × Entry → String) (runs : Runs)
    → Unique runs
    → Unique (sort_by py by runs)
unfolding sort_by
Unique-sort_by py by [] unique = tt
Unique-sort_by py by (x ∷ runs) (absent, unique) =
    Unique-insert_sorted py by x (sort_by py by runs)
      (lookup-sort_by py by runs unique x.0 ∙ absent) (Unique-sort_by py by runs unique)

pub Unique-assign_run :
    (ref : String) (entry : Entry) (runs : Runs) → Unique runs → Unique (assign_run ref entry runs)
unfolding assign_run lookup
Unique-assign_run ref entry [] unique = (refl, tt)
Unique-assign_run ref entry ((key, other) ∷ runs) (absent, unique) =
    go _ refl (Unique-assign_run ref entry runs unique)
  where
    go :
        (c : Bool)
        → (key == ref) ≡ c
        → Unique (assign_run ref entry runs)
        → Unique (if c then (key, entry) ∷ runs else (key, other) ∷ assign_run ref entry runs)
    go true h further = (absent, unique)
    go false h further = (
      lookup-assign_run key ref entry runs
          ∙ if-none (ref == key) entry _ (differ-sym key ref h) absent,
      further,
    )

-- What a pruning leaves of an entry.
unfoldable pub survives : Platform → ℕ → Option Entry → Result (Option Entry)
survives py moment none = ok none
survives py moment (some entry) = do
  expires ← py.time_of entry.expires_at
  ok (if ltb moment (expires + retain_after_expiry) then some entry else none)

lookup-kept_entry :
    (k : String) (c : Bool) (x : String × Entry) (runs : Runs)
    → lookup x.0 runs ≡ none
    → lookup k (kept_entry c x runs)
      ≡ (if x.0 == k then (if c then some x.1 else none) else lookup k runs)
unfolding lookup
lookup-kept_entry k true x runs absent = refl
lookup-kept_entry k false x runs absent = go _ refl
  where
    go : (c : Bool) → (x.0 == k) ≡ c → lookup k runs ≡ (if c then none else lookup k runs)
    go true h = subst (λ r. lookup r runs ≡ none) (beq→eq {A = String} x.0 k h) absent
    go false h = refl

Unique-kept_entry :
    (c : Bool) (x : String × Entry) (runs : Runs)
    → lookup x.0 runs ≡ none
    → Unique runs
    → Unique (kept_entry c x runs)
Unique-kept_entry true x runs absent unique = (absent, unique)
Unique-kept_entry false x runs absent unique = unique

survives-some :
    (py : Platform) (moment expires : ℕ) (entry : Entry)
    → py.time_of entry.expires_at ≡ ok expires
    → survives py moment (some entry)
      ≡ ok (if ltb moment (expires + retain_after_expiry) then some entry else none)
unfolding survives
survives-some py moment expires entry timed = rw timed refl

survives-if :
    (py : Platform) (moment : ℕ) (c : Bool) (o o' p p' : Option Entry)
    → survives py moment o ≡ ok o'
    → survives py moment p ≡ ok p'
    → survives py moment (if c then o else p) ≡ ok (if c then o' else p')
survives-if py moment true o o' p p' h k = h
survives-if py moment false o o' p p' h k = k

-- A pruning keeps the keys apart, and what it leaves under each.
pub prune-survives :
    (py : Platform) (moment : ℕ) (runs kept : Runs)
    → Unique runs
    → prune py moment runs ≡ ok kept
    → Unique kept × ((k : String) → survives py moment (lookup k runs) ≡ ok (lookup k kept))
unfolding prune survives lookup
prune-survives py moment [] kept unique h =
    let same : [] ≡ kept = cc h in
    subst (λ r. Unique r × ((k : String) → ok none ≡ ok (lookup k r))) same (tt, λ k. refl)
prune-survives py moment (x ∷ runs) kept (absent, unique) h =
    let (expires, timed, h1) = >>=-eq-ok (py.time_of x.1.expires_at) _ h in
    let (rest, pruned, h2) = >>=-eq-ok (prune py moment runs) _ h1 in
    let (unique', survive) = prune-survives py moment runs rest unique pruned in
    let absent' : lookup x.0 rest ≡ none =
      cc (sym (ap (survives py moment) absent) ∙ survive x.0) in
    let kept' = ltb moment (expires + retain_after_expiry) in
    let same : kept_entry kept' x rest ≡ kept = cc h2 in
    subst
      (λ r.
        Unique r
        × ((k : String)
            → survives py moment (if x.0 == k then some x.1 else lookup k runs) ≡ ok (lookup k r)))
      same
      (
        Unique-kept_entry kept' x rest absent' unique',
        λ k.
            survives-if py moment (x.0 == k) (some x.1) _ (lookup k runs) _
              (survives-some py moment expires x.1 timed) (survive k)
            ∙ ap ok (sym (lookup-kept_entry k kept' x rest absent')),
      )
