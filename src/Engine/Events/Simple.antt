-- ===== src/Engine/Events/Simple.antt =====
-- An XREAD that runs, on streams whose ids are all different: it shows that the assumptions on XREAD
-- can be met, and the tests run on it.
use auctioneer.Base.{
  suc, ◌/◌, ◌≡◌, ◌∙◌, ◌≢◌, refl, sym, ap, List, [], ◌∷◌, ◌++◌, map, append-nil, arith,
  if◌then◌else◌, length, length-append, Bool-cases, inl, inr,
}
use auctioneer.Text.{Bytes, codes, bytes_eq, bytes_eq_refl, ne→bytes_eq}
use auctioneer.Engine.Redis.{Fields}
use auctioneer.Engine.Events.{Request, Answer, streams}
use auctioneer.Engine.Events.Streams.{Entry, World, take, drop, HasIds, Answers, asked}

unfoldable pub behind_id : Bytes → List Entry → List Entry
behind_id id [] = []
behind_id id ((j, fields) ∷ entries) = if bytes_eq j id then entries else behind_id id entries

unfoldable pub behind : Bytes → List Entry → List Entry
unfolding behind_id
behind id entries = if bytes_eq id (codes "0-0") then entries else behind_id id entries

zip : List Bytes → List Bytes → List (Bytes × Bytes)
zip [] ys = []
zip (x ∷ xs) [] = []
zip (x ∷ xs) (y ∷ ys) = (x, y) ∷ zip xs ys

pairs : List Bytes → List (Bytes × Bytes)
unfolding zip
pairs xs = zip (take (length xs / 2) xs) (drop (length xs / 2) xs)

take-append {ℓ} : {A : Type ℓ} (xs ys : List A) → take (length xs) (xs ++ ys) ≡ xs
take-append [] ys = refl
take-append (x ∷ xs) ys = ap (λ zs. x ∷ zs) (take-append xs ys)

drop-append {ℓ} : {A : Type ℓ} (xs ys : List A) → drop (length xs) (xs ++ ys) ≡ ys
drop-append [] ys = refl
drop-append (x ∷ xs) ys = drop-append xs ys

length-map {ℓ κ} :
    {A : Type ℓ} {B : Type κ} (f : A → B) (xs : List A) → length (map f xs) ≡ length xs
length-map f [] = refl
length-map f (x ∷ xs) = ap suc (length-map f xs)

zip-map : (rs : List (Bytes × Bytes)) → zip (map (λ r. r.0) rs) (map (λ r. r.1) rs) ≡ rs
unfolding zip
zip-map [] = refl
zip-map (r ∷ rs) = ap (λ zs. r ∷ zs) (zip-map rs)

pairs-append : (rs : List (Bytes × Bytes)) → pairs (map (λ r. r.0) rs ++ map (λ r. r.1) rs) ≡ rs
unfolding pairs
pairs-append rs =
    let ks = map (λ r. r.0) rs in
    let is = map (λ r. r.1) rs in
    let half : length (ks ++ is) / 2 ≡ length ks = omega (
      arith,
      length-append ks is,
      length-map (λ (r : Bytes × Bytes). r.0) rs,
      length-map (λ (r : Bytes × Bytes). r.1) rs,
    ) in
    rw (half, take-append, drop-append) (zip-map rs)

unfoldable pub xread : World → Request → Answer
unfolding pairs
xread w r = streams (asked behind w r.client r.count (pairs r.streams) ∷ [])

pub xread-Answers : (w : World) → Answers behind w (xread w)
unfolding xread
xread-Answers w = record {
  answer = λ r reads e.
      append-nil _ ∙ ap (asked behind w r.client r.count) (ap pairs e ∙ pairs-append reads);
}

not_nil {ℓ} : {A : Type ℓ} (xs : List A) (x : A) (ys : List A) → [] ≢ xs ++ x ∷ ys
not_nil [] x ys e = cc
not_nil (z ∷ xs) x ys e = cc

only_one {ℓ} :
    {A : Type ℓ} (y : A) (xs : List A) (x : A) (ys : List A)
    → y ∷ [] ≡ xs ++ x ∷ ys
    → (y ≡ x) × (ys ≡ [])
only_one y [] x ys e = (cc, cc)
only_one y (z ∷ xs) x ys e = let rest : [] ≡ xs ++ x ∷ ys = cc in absurd (not_nil xs x ys rest)

-- A world with one stream that has one entry.
module _ (k id : Bytes) (fields : Fields) where
  abbrev pub one_entry : World
  one_entry i j = if bytes_eq k j then (id, fields) ∷ [] else []

  pub one_entry-HasIds : id ≢ [] → id ≢ codes "0-0" → HasIds behind one_entry
  unfolding behind bytes_eq
  one_entry-HasIds there other = record {
    from_start = λ i j. refl;
    from_entry = λ i j before after id' fields' e. read_back j before after id' fields' e;
  }
    where
      read_back :
          (j : Bytes) (before after : List Entry) (id' : Bytes) (fields' : Fields)
          → one_entry 0 j ≡ before ++ (id', fields') ∷ after
          → (id' ≢ []) × (behind id' (one_entry 0 j) ≡ after)
      read_back j before after id' fields' e = elim (Bool-cases (bytes_eq k j)) [
        | inr absent ↦ absurd (not_nil before (id', fields') after (rw absent at e))
        | inl present ↦
            (let (same, last) =
                only_one (id, fields) before (id', fields') after (rw present at e) in
              let here : id ≡ id' = ap (λ x. x.0) same in
              (
                λ n. there (here ∙ n),
                rw present (
                    rw (← here)
                      (rw (ne→bytes_eq id (codes "0-0") other, bytes_eq_refl id) (sym last))),
              ))
      ]
