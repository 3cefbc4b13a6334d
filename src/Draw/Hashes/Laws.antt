-- ===== src/Draw/Hashes/Laws.antt =====
-- The bytes that are hashed determine what is committed to.
use twilight_core_explorer.Common.{append_assoc}
use twilight_core_explorer.Common.{
  ℕ, zero, suc, ◌/◌, ◌%◌, ◌^◌, ◌<◌, ◌≡◌, refl, sym, ap, ◌∙◌, List, [], ◌∷◌, ◌++◌, arith, length,
  All,
}
use twilight_core_explorer.Text.{codes}
use twilight_core_explorer.Draw.Bytes.{Bytes, big_endian, u16be, u32be, u64be}
use twilight_core_explorer.Draw.Hashes.{
  Context, ctx_bytes, concat, candidate_set_preimage, utf8, domain_candidate_set,
}

-- equal lists split into equal parts where the first parts are equally long
pub split-append :
    (xs ys xs' ys' : Bytes)
    → length xs ≡ length xs'
    → xs ++ ys ≡ xs' ++ ys'
    → (xs ≡ xs') × (ys ≡ ys')
split-append [] ys [] ys' l e = (refl, e)
split-append [] ys (x ∷ xs') ys' l e = absurd (omega (arith, l))
split-append (x ∷ xs) ys [] ys' l e = absurd (omega (arith, l))
split-append (x ∷ xs) ys (x' ∷ xs') ys' l e =
    let rest = split-append xs ys xs' ys' (omega (arith, l)) (ground (arith, e)) in
    (ground (arith, e, rest.0), rest.1)

cons-head : {x y : ℕ} {xs ys : Bytes} → x ∷ xs ≡ y ∷ ys → x ≡ y
cons-head e = ground (arith, e)

cons-tail : {x y : ℕ} {xs ys : Bytes} → x ∷ xs ≡ y ∷ ys → xs ≡ ys
cons-tail e = ground (arith, e)

pub length-big_endian : (k n : ℕ) → length (big_endian k n) ≡ k
unfolding big_endian
length-big_endian zero n = refl
length-big_endian (suc k) n = ap suc (length-big_endian k n)

-- the last byte, and the others as one number
big_endian-head :
    (k n m : ℕ)
    → big_endian (suc k) n ≡ big_endian (suc k) m
    → ((n / 256 ^ k) % 256 ≡ (m / 256 ^ k) % 256) × (big_endian k n ≡ big_endian k m)
unfolding big_endian
big_endian-head k n m e = (cons-head e, cons-tail e)

u16be-injective : (n m : ℕ) → n < 65536 → m < 65536 → u16be n ≡ u16be m → n ≡ m
u16be-injective n m h h' e =
    let a = big_endian-head 1 n m e in let b = big_endian-head 0 n m a.1 in omega (arith, a.0, b.0)

u64be-injective :
    (n m : ℕ) → n < 18446744073709551616 → m < 18446744073709551616 → u64be n ≡ u64be m → n ≡ m
u64be-injective n m h h' e =
    let a = big_endian-head 7 n m e in
    let b = big_endian-head 6 n m a.1 in
    let c = big_endian-head 5 n m b.1 in
    let d = big_endian-head 4 n m c.1 in
    let f = big_endian-head 3 n m d.1 in
    let g = big_endian-head 2 n m f.1 in
    let i = big_endian-head 1 n m g.1 in
    let j = big_endian-head 0 n m i.1 in omega (arith, a.0, b.0, c.0, d.0, f.0, g.0, i.0, j.0)

pub u32be-injective : (n m : ℕ) → n < 4294967296 → m < 4294967296 → u32be n ≡ u32be m → n ≡ m
u32be-injective n m h h' e =
    let a = big_endian-head 3 n m e in
    let b = big_endian-head 2 n m a.1 in
    let c = big_endian-head 1 n m b.1 in
    let d = big_endian-head 0 n m c.1 in omega (arith, a.0, b.0, c.0, d.0)

-- What fits the widths that `ctxBytes` writes.
pub record Fits (c : Context) : Type 0 where
  pub chain_id : length (utf8 c.chain_id) < 65536
  pub slot_id : c.slot_id < 18446744073709551616
  pub epoch : c.epoch < 18446744073709551616

split-big_endian :
    (k n m : ℕ) (xs ys : Bytes)
    → big_endian k n ++ xs ≡ big_endian k m ++ ys
    → (big_endian k n ≡ big_endian k m) × (xs ≡ ys)
split-big_endian k n m xs ys e =
    split-append (big_endian k n) xs (big_endian k m) ys
      (length-big_endian k n ∙ sym (length-big_endian k m)) e

assoc :
    (ws bs cs ds ss : Bytes) → (ws ++ (bs ++ (cs ++ ds))) ++ ss ≡ ws ++ (bs ++ (cs ++ (ds ++ ss)))
assoc ws bs cs ds ss = simp (append_assoc)

-- The context can be read off the bytes that it starts.
split-ctx_bytes :
    (c d : Context) (xs ys : Bytes)
    → Fits c
    → Fits d
    → ctx_bytes c ++ xs ≡ ctx_bytes d ++ ys
    → (utf8 c.chain_id ≡ utf8 d.chain_id)
      × (c.slot_id ≡ d.slot_id)
      × (c.epoch ≡ d.epoch)
      × (xs ≡ ys)
unfolding ctx_bytes
split-ctx_bytes c d xs ys fc fd e =
    let e' = rw (assoc _ _ _ _ xs, assoc _ _ _ _ ys) at e in
    let (l, e1) = split-big_endian 2 (length (utf8 c.chain_id)) (length (utf8 d.chain_id)) _ _ e' in
    let size = u16be-injective _ _ fc.chain_id fd.chain_id l in
    let (chain, e2) = split-append (utf8 c.chain_id) _ (utf8 d.chain_id) _ size e1 in
    let (slot, e3) = split-big_endian 8 c.slot_id d.slot_id _ _ e2 in
    let (epoch, rest) = split-big_endian 8 c.epoch d.epoch xs ys e3 in
    (
      chain,
      u64be-injective _ _ fc.slot_id fd.slot_id slot,
      u64be-injective _ _ fc.epoch fd.epoch epoch,
      rest,
    )

abbrev pub Is32 : Bytes → Type 0
Is32 b = length b ≡ 32

concat-injective :
    (is js : List Bytes)
    → length is ≡ length js
    → All Is32 is
    → All Is32 js
    → concat is ≡ concat js
    → is ≡ js
unfolding concat
concat-injective [] [] l h k e = refl
concat-injective [] (j ∷ js) l h k e = absurd (omega (arith, l))
concat-injective (i ∷ is) [] l h k e = absurd (omega (arith, l))
concat-injective (i ∷ is) (j ∷ js) l h k e =
    let (same, rest) = split-append i (concat is) j (concat js) (h.0 ∙ sym k.0) e in
    let tail = concat-injective is js (omega (arith, l)) h.1 k.1 rest in
    ap (λ x. x ∷ is) same ∙ ap (λ xs. j ∷ xs) tail

-- Two candidate sets with the same bytes to hash are the same set, for the same chain, slot and epoch,
-- where the ids have 32 bytes, the sets fewer than 2^64 ids, and the contexts fit their widths.
pub candidate_set_preimage-injective :
    (c d : Context) (is js : List Bytes)
    → Fits c
    → Fits d
    → All Is32 is
    → All Is32 js
    → length is < 18446744073709551616
    → length js < 18446744073709551616
    → candidate_set_preimage c is ≡ candidate_set_preimage d js
    → (utf8 c.chain_id ≡ utf8 d.chain_id)
      × (c.slot_id ≡ d.slot_id)
      × (c.epoch ≡ d.epoch)
      × (is ≡ js)
unfolding candidate_set_preimage
candidate_set_preimage-injective c d is js fc fd h k li lj e =
    let rest =
      (split-append (codes domain_candidate_set) _ (codes domain_candidate_set) _ refl e).1 in
    let (chain, slot, epoch, tail) = split-ctx_bytes c d _ _ fc fd rest in
    let (n, ids) = split-big_endian 8 (length is) (length js) _ _ tail in
    (chain, slot, epoch, concat-injective is js (u64be-injective _ _ li lj n) h k ids)
