-- ===== src/MsgArg/Numbers.antt =====
-- Numbers, and arrays of numbers, are read back.
use xmppconn.Base.{
  ℕ, zero, suc, ◌+◌, ◌<◌, ◌^◌, ◌%◌, Bool, true, false, List, [], ◌∷◌, ◌++◌, Bytes, codes, newline,
  nat_eq, bytes_eq, ◌≡◌, ◌≢◌, refl, sym, ap, ◌∙◌, arith, All, append_assoc, subst, if◌then◌else◌,
  inl, inr, append-nil,
}
use xmppconn.MsgArg.{
  Scalar, Library, boolean, double, int32, int16, uint16, uint64, uint32, int64, byte,
}
use xmppconn.MsgArg.Print.{number_text, number_texts, scalar_array_content, extend, spaces}
use xmppconn.MsgArg.Parse.{read_number, read_numbers, words}
use xmppconn.MsgArg.Valid.{
  Laws, IsWord, WordByte, IsBlank, FirstInk, LastInk, LastInk-append, bound,
}

pub spaces-IsBlank : (n : ℕ) → All IsBlank (spaces n)
unfolding spaces
spaces-IsBlank zero = tt
spaces-IsBlank (suc n) = (inl refl, spaces-IsBlank n)

bit-IsWord : (b : Bool) → IsWord (if b then codes "0" else codes "1")
bit-IsWord true = (λ e. ground (arith, e), ((omega arith, λ e. absurd (omega (arith, e))), tt))
bit-IsWord false = (λ e. ground (arith, e), ((omega arith, λ e. absurd (omega (arith, e))), tt))

extend-narrow : (n : ℕ) → n < 2 ^ 16 → (extend n < 2 ^ 32) × (extend n % 2 ^ 16 ≡ n)
extend-narrow n h = (ground (arith, h), ground (arith, h))

pub FirstInk-append : (w s : Bytes) → IsWord w → FirstInk (w ++ s)
FirstInk-append [] s (e, h) = absurd (e refl)
FirstInk-append (c ∷ w) s (e, h) = h.0.0

LastInk-word : (w : Bytes) → All WordByte w → LastInk w
LastInk-word [] h = tt
LastInk-word (c ∷ []) h = h.0.0
LastInk-word (c ∷ d ∷ w) h = LastInk-word (d ∷ w) h.1

LastInk-behind : (w s : Bytes) → s ≢ [] → LastInk s → LastInk (w ++ s)
LastInk-behind w [] e h = absurd (e refl)
LastInk-behind w (c ∷ s) e h = LastInk-append w c s h

append_nonempty : (w : Bytes) (c : ℕ) (s : Bytes) → w ++ c ∷ s ≢ []
append_nonempty [] c s e = ground (arith, e)
append_nonempty (d ∷ w) c s e = ground (arith, e)

words-word :
    (acc w s : Bytes) → All WordByte w → words acc (w ++ b' ' ∷ s) ≡ words (acc ++ w) (b' ' ∷ s)
unfolding words
words-word acc [] s h = rw append-nil refl
words-word acc (c ∷ w) s (hc, h) =
    let e : nat_eq c b' ' ≡ false = ground (arith, hc) in
    rw e (
      words-word (acc ++ c ∷ []) w s h ∙ ap (λ x. words x (b' ' ∷ s)) (append_assoc acc (c ∷ []) w))

words-last : (acc w : Bytes) → All WordByte w → words acc w ≡ words (acc ++ w) []
unfolding words
words-last acc [] h = rw append-nil refl
words-last acc (c ∷ w) (hc, h) =
    let e : nat_eq c b' ' ≡ false = ground (arith, hc) in
    rw e (words-last (acc ++ c ∷ []) w h ∙ ap (λ x. words x []) (append_assoc acc (c ∷ []) w))

module _ (lib : Library) (laws : Laws lib) where
  pub number_text-IsWord : (kind : Scalar) (n : ℕ) → IsWord (number_text lib kind n)
  unfolding number_text
  number_text-IsWord boolean n = bit-IsWord (nat_eq n 0)
  number_text-IsWord double n = (
    λ e. ground (arith, e),
    (
      (omega arith, λ e. absurd (omega (arith, e))),
      ((omega arith, λ e. absurd (omega (arith, e))), (laws.hex_word n).1),
    ),
  )
  number_text-IsWord int32 n = laws.i32_word n
  number_text-IsWord int16 n = laws.i32_word (extend n)
  number_text-IsWord uint16 n = laws.u32_word n
  number_text-IsWord uint64 n = laws.u64_word n
  number_text-IsWord uint32 n = laws.u32_word n
  number_text-IsWord int64 n = laws.i64_word n
  number_text-IsWord byte n = laws.u32_word n

  -- Each number in the range of its type is read back from its text.
  pub read-number_text :
      (kind : Scalar) (n : ℕ) → n < bound kind → read_number lib kind (number_text lib kind n) ≡ n
  unfolding read_number number_text bytes_eq
  read-number_text boolean zero h = ground arith
  read-number_text boolean (suc zero) h = ground arith
  read-number_text boolean (suc (suc n)) h = absurd (omega (arith, h))
  read-number_text double n h = laws.hex n h
  read-number_text int32 n h = laws.i32 n h
  read-number_text int16 n h = let w = extend-narrow n h in rw (laws.i32 (extend n) w.0) w.1
  read-number_text uint16 n h = rw (laws.u32 n (omega (arith, h))) (omega (arith, h))
  read-number_text uint64 n h = laws.u64 n h
  read-number_text uint32 n h = laws.u32 n h
  read-number_text int64 n h = laws.i64 n h
  read-number_text byte n h = rw (laws.u32 n (omega (arith, h))) (omega (arith, h))

  -- The texts of the numbers with a space between each two.
  joined : Scalar → ℕ → List ℕ → Bytes
  joined kind n [] = number_text lib kind n
  joined kind n (m ∷ ns) = number_text lib kind n ++ b' ' ∷ joined kind m ns

  number_texts-joined :
      (kind : Scalar) (n : ℕ) (ns : List ℕ)
      → number_texts lib kind (n ∷ ns) ≡ joined kind n ns ++ b' ' ∷ []
  unfolding number_texts joined
  number_texts-joined kind n [] = refl
  number_texts-joined kind n (m ∷ ns) =
      rw (number_texts-joined kind m ns)
        (sym (append_assoc (number_text lib kind n) (b' ' ∷ joined kind m ns) (b' ' ∷ [])))

  joined-FirstInk : (kind : Scalar) (n : ℕ) (ns : List ℕ) → FirstInk (joined kind n ns)
  unfolding joined
  joined-FirstInk kind n [] =
      subst FirstInk (append-nil (number_text lib kind n))
        (FirstInk-append (number_text lib kind n) [] (number_text-IsWord kind n))
  joined-FirstInk kind n (m ∷ ns) =
      FirstInk-append (number_text lib kind n) (b' ' ∷ joined kind m ns) (number_text-IsWord kind n)

  joined-nonempty : (kind : Scalar) (n : ℕ) (ns : List ℕ) → joined kind n ns ≢ []
  unfolding joined
  joined-nonempty kind n [] e = (number_text-IsWord kind n).0 e
  joined-nonempty kind n (m ∷ ns) e =
      append_nonempty (number_text lib kind n) b' ' (joined kind m ns) e

  joined-LastInk : (kind : Scalar) (n : ℕ) (ns : List ℕ) → LastInk (joined kind n ns)
  unfolding joined
  joined-LastInk kind n [] = LastInk-word (number_text lib kind n) (number_text-IsWord kind n).1
  joined-LastInk kind n (m ∷ ns) =
      subst LastInk (append_assoc (number_text lib kind n) (b' ' ∷ []) (joined kind m ns)) (
        LastInk-behind (number_text lib kind n ++ b' ' ∷ []) (joined kind m ns)
          (joined-nonempty kind m ns) (joined-LastInk kind m ns))

  words-ended : (w s : Bytes) → w ≢ [] → words w (b' ' ∷ s) ≡ w ∷ words [] s
  unfolding words
  words-ended [] s h = absurd (h refl)
  words-ended (c ∷ w) s h = refl

  words-done : (w : Bytes) → w ≢ [] → words w [] ≡ w ∷ []
  unfolding words
  words-done [] h = absurd (h refl)
  words-done (c ∷ w) h = refl

  read-joined :
      (kind : Scalar) (n : ℕ) (ns : List ℕ)
      → All (λ m. m < bound kind) (n ∷ ns)
      → read_numbers lib kind (words [] (joined kind n ns)) ≡ n ∷ ns
  unfolding joined read_numbers
  read-joined kind n [] (h, _) =
      let t = number_text lib kind n in
      let w = number_text-IsWord kind n in
      rw (words-last [] t w.1 ∙ words-done t w.0) (rw (read-number_text kind n h) refl)
  read-joined kind n (m ∷ ns) (h, hs) =
      let t = number_text lib kind n in
      let w = number_text-IsWord kind n in
      rw (words-word [] t (joined kind m ns) w.1 ∙ words-ended t (joined kind m ns) w.0)
        (rw (read-number_text kind n h) (ap (◌∷◌ n) (read-joined kind m ns hs)))

  pub read-scalar_array_content :
      (kind : Scalar) (ns : List ℕ) (indent : ℕ)
      → All (λ m. m < bound kind) ns
      → read_numbers lib kind (words [] (lib.trim (scalar_array_content lib kind ns indent))) ≡ ns
  unfolding scalar_array_content
  read-scalar_array_content kind [] indent h =
      let e =
        laws.trimmed (newline ∷ spaces indent) [] [] (inr refl, spaces-IsBlank indent) tt
          (tt, tt) in
      rw (rw append-nil at e) (unfold words in unfold read_numbers in refl)
  read-scalar_array_content kind (n ∷ ns) indent h =
      let e =
        laws.trimmed (newline ∷ spaces (indent + 2)) (joined kind n ns)
          (b' ' ∷ newline ∷ spaces indent) (inr refl, spaces-IsBlank (indent + 2))
          (inl refl, (inr refl, spaces-IsBlank indent))
          (joined-FirstInk kind n ns, joined-LastInk kind n ns) in
      rw (number_texts-joined kind n ns) (
        ap (λ s. read_numbers lib kind (words [] (lib.trim s))) (simp append_assoc)
        ∙ ap (λ s. read_numbers lib kind (words [] s)) e
        ∙ read-joined kind n ns h)
