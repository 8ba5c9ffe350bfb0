-- ===== src/StepUp/Binding.antt =====
-- What a grant is bound to: the text that `resourceHash` hashes tells apart what is confirmed, and does
-- not depend on the order in which it is written down.
use rayi.Prelude.{
  true, false, List, [], ◌∷◌, ◌++◌, ℕ, ◌≡◌, refl, sym, ◌∙◌, arith, Text, text_eq, All, has,
}
use mathlib.Core.Path.{subst}
use mathlib.Core.List.{Permᴰ}
use rayi.Prelude.Sorting.{insert, sort, All-sort}
use rayi.StepUp.{Part, key_leb, text_leb, join_parts, canonical, resource_hash_of}

-- A text without a character.
abbrev pub IsFree : ℕ → Text → Type 0
IsFree c s = has s c ≡ false

IsFree-append : (c : ℕ) (s t : Text) → IsFree c s → IsFree c t → IsFree c (s ++ t)
IsFree-append c [] t h k = k
IsFree-append c (d ∷ s) t h k = ground (arith, IsFree-append c s t)

-- A separator that does not occur before it marks the same place in equal texts.
cut :
    (c : ℕ) (a b s t : Text) → IsFree c a → IsFree c b → a ++ c ∷ s ≡ b ++ c ∷ t → (a ≡ b) × (s ≡ t)
cut c [] [] s t h k e = (refl, cc)
cut c [] (d ∷ b) s t h k e = let same : c ≡ d = cc in ground arith
cut c (d ∷ a) [] s t h k e = let same : d ≡ c = cc in ground arith
cut c (d ∷ a) (d' ∷ b) s t h k e =
    let (left, right) = cut c a b s t (ground arith) (ground arith) cc in (cc, right)

uncut : (c : ℕ) (a b s : Text) → IsFree c b → a ++ c ∷ s ≡ b → ⊥
uncut c [] [] s h e = cc
uncut c [] (d ∷ b) s h e = let same : c ≡ d = cc in ground arith
uncut c (d ∷ a) [] s h e = cc
uncut c (d ∷ a) (d' ∷ b) s h e = uncut c a b s (ground arith) cc

-- A key without `=` and the separator, and a value without the separator.
abbrev pub IsPlain : Part → Type 0
IsPlain (k, v) = IsFree b'=' k × IsFree 1 k × IsFree 1 v

part-IsFree : (p : Part) → IsPlain p → IsFree 1 (p.0 ++ b'=' ∷ p.1)
part-IsFree (k, v) (eq, key, value) = IsFree-append 1 k (b'=' ∷ v) key (ground arith)

part-injective :
    (p q : Part) → IsPlain p → IsPlain q → p.0 ++ b'=' ∷ p.1 ≡ q.0 ++ b'=' ∷ q.1 → p ≡ q
part-injective (k, v) (k', v') h h' e =
    let (key, value) = cut b'=' k k' v v' h.0 h'.0 e in rw (key, value) refl

not_empty : (c : ℕ) (s t : Text) → s ++ c ∷ t ≡ [] → ⊥
not_empty c [] t e = cc
not_empty c (d ∷ s) t e = cc

-- The parts can be read off the text.
pub join_parts-injective :
    (ps qs : List Part) → All IsPlain ps → All IsPlain qs → join_parts ps ≡ join_parts qs → ps ≡ qs
join_parts-injective [] [] h k e = refl
join_parts-injective [] (q ∷ []) h k e = absurd (not_empty b'=' q.0 q.1 (sym e))
join_parts-injective [] (q ∷ q' ∷ qs) h k e = absurd (not_empty 1 (q.0 ++ b'=' ∷ q.1) _ (sym e))
join_parts-injective (p ∷ []) [] h k e = absurd (not_empty b'=' p.0 p.1 e)
join_parts-injective (p ∷ p' ∷ ps) [] h k e = absurd (not_empty 1 (p.0 ++ b'=' ∷ p.1) _ e)
join_parts-injective (p ∷ []) (q ∷ []) h k e = rw (part-injective p q h.0 k.0 e) refl
join_parts-injective (p ∷ []) (q ∷ q' ∷ qs) h k e =
    absurd (uncut 1 (q.0 ++ b'=' ∷ q.1) (p.0 ++ b'=' ∷ p.1) _ (part-IsFree p h.0) (sym e))
join_parts-injective (p ∷ p' ∷ ps) (q ∷ []) h k e =
    absurd (uncut 1 (p.0 ++ b'=' ∷ p.1) (q.0 ++ b'=' ∷ q.1) _ (part-IsFree q k.0) e)
join_parts-injective (p ∷ p' ∷ ps) (q ∷ q' ∷ qs) h k e =
    let (first, rest) =
      cut 1 (p.0 ++ b'=' ∷ p.1) (q.0 ++ b'=' ∷ q.1) (join_parts (p' ∷ ps)) (join_parts (q' ∷ qs))
        (part-IsFree p h.0) (part-IsFree q k.0) e in
    rw (part-injective p q h.0 k.0 first, join_parts-injective (p' ∷ ps) (q' ∷ qs) h.1 k.1 rest)
      refl

text_leb_total : (s t : Text) → text_leb s t ≡ false → text_leb t s ≡ true
text_leb_total [] t h = cc
text_leb_total (c ∷ s) [] h = refl
text_leb_total (c ∷ s) (d ∷ t) h = ground (arith, text_leb_total s t)

text_leb_antisym : (s t : Text) → text_leb s t ≡ true → text_leb t s ≡ true → text_eq s t ≡ true
text_leb_antisym [] [] h k = refl
text_leb_antisym [] (d ∷ t) h k = cc
text_leb_antisym (c ∷ s) [] h k = cc
text_leb_antisym (c ∷ s) (d ∷ t) h k = ground (arith, text_leb_antisym s t)

text_leb_trans : (s t u : Text) → text_leb s t ≡ true → text_leb t u ≡ true → text_leb s u ≡ true
text_leb_trans [] t u h k = refl
text_leb_trans (c ∷ s) [] u h k = cc
text_leb_trans (c ∷ s) (d ∷ t) [] h k = cc
text_leb_trans (c ∷ s) (d ∷ t) (e ∷ u) h k = ground (arith, text_leb_trans s t u)

text_eq_sym : (s t : Text) → text_eq s t ≡ false → text_eq t s ≡ false
text_eq_sym [] [] h = h
text_eq_sym [] (d ∷ t) h = refl
text_eq_sym (c ∷ s) [] h = refl
text_eq_sym (c ∷ s) (d ∷ t) h = ground (arith, text_eq_sym s t)

insert_comm :
    (x y : Part) (ps : List Part)
    → text_eq x.0 y.0 ≡ false
    → insert key_leb x (insert key_leb y ps) ≡ insert key_leb y (insert key_leb x ps)
unfolding insert
insert_comm x y [] n =
    let total = text_leb_total x.0 y.0 in let antisym = text_leb_antisym x.0 y.0 in ground arith
insert_comm x y (z ∷ ps) n =
    let rest = insert_comm x y ps n in
    let total = text_leb_total x.0 y.0 in
    let antisym = text_leb_antisym x.0 y.0 in
    let under_y = text_leb_trans x.0 y.0 z.0 in
    let under_x = text_leb_trans y.0 x.0 z.0 in ground arith

-- The keys of an object, each once.
abbrev pub KeysDiffer : List Part → Type 0
KeysDiffer [] = Unit
KeysDiffer (p ∷ ps) = All (λ q. text_eq p.0 q.0 ≡ false) ps × KeysDiffer ps

All-Perm : (P : Part → Type 0) (ps qs : List Part) → Permᴰ ps qs → All P ps → All P qs
All-Perm P _ _ Permᴰ.nil h = tt
All-Perm P _ _ (Permᴰ.cons {l₁ = ps} {l₂ = qs} e perm) h =
    (subst P e h.0, All-Perm P ps qs perm h.1)
All-Perm P _ _ (Permᴰ.swap e d) h = (subst P d h.1.0, (subst P e h.0, h.1.1))
All-Perm P _ _ (Permᴰ.trans {l₁ = ps} {l₂ = qs} {l₃ = rs} first second) h =
    All-Perm P qs rs second (All-Perm P ps qs first h)

Perm-KeysDiffer : (ps qs : List Part) → Permᴰ ps qs → KeysDiffer ps → KeysDiffer qs
Perm-KeysDiffer _ _ Permᴰ.nil h = tt
Perm-KeysDiffer _ _ (Permᴰ.cons {a = p} {b = q} {l₁ = ps} {l₂ = qs} e perm) h = (
  subst (λ k. All (λ r. text_eq k.0 r.0 ≡ false) qs) e
      (All-Perm (λ r. text_eq p.0 r.0 ≡ false) ps qs perm h.0),
  Perm-KeysDiffer ps qs perm h.1,
)
Perm-KeysDiffer _ _ (Permᴰ.swap {a = p} {b = q} {a' = p'} {b' = q'} {l = ps} e d) h =
    subst (λ k. KeysDiffer (k ∷ q' ∷ ps)) d
      (subst (λ k. KeysDiffer (q ∷ k ∷ ps)) e ((text_eq_sym p.0 q.0 h.0.0, h.1.0), (h.0.1, h.1.1)))
Perm-KeysDiffer _ _ (Permᴰ.trans {l₁ = ps} {l₂ = qs} {l₃ = rs} first second) h =
    Perm-KeysDiffer qs rs second (Perm-KeysDiffer ps qs first h)

sort-Perm : (ps qs : List Part) → Permᴰ ps qs → KeysDiffer ps → sort key_leb ps ≡ sort key_leb qs
unfolding sort
sort-Perm _ _ Permᴰ.nil h = refl
sort-Perm _ _ (Permᴰ.cons {l₁ = ps} {l₂ = qs} e perm) h = rw (e, sort-Perm ps qs perm h.1) refl
sort-Perm _ _ (Permᴰ.swap {a = p} {b = q} {l = ps} e d) h =
    rw (sym e, sym d) (insert_comm p q (sort key_leb ps) h.0.0)
sort-Perm _ _ (Permᴰ.trans {l₁ = ps} {l₂ = qs} {l₃ = rs} first second) h =
    sort-Perm ps qs first h ∙ sort-Perm qs rs second (Perm-KeysDiffer ps qs first h)

-- The same parts written down in another order have the same hash, whatever the hash is.
pub resource_hash_of-Perm :
    (sha256_hex : Text → Text) (ps qs : List Part)
    → Permᴰ ps qs
    → KeysDiffer ps
    → resource_hash_of sha256_hex ps ≡ resource_hash_of sha256_hex qs
unfolding resource_hash_of canonical
resource_hash_of-Perm sha256_hex ps qs perm h = rw (sort-Perm ps qs perm h) refl

-- Parts that are hashed from the same text are the same in the order of their keys: neither an amount
-- nor an identifier can be exchanged, where no key has a `=` and nothing has the separator.
pub canonical-injective :
    (ps qs : List Part)
    → All IsPlain ps
    → All IsPlain qs
    → canonical ps ≡ canonical qs
    → sort key_leb ps ≡ sort key_leb qs
unfolding canonical
canonical-injective ps qs h k e =
    join_parts-injective (sort key_leb ps) (sort key_leb qs) (All-sort key_leb IsPlain ps h)
      (All-sort key_leb IsPlain qs k) e
