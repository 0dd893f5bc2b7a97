-- ===== src/User/Same.antt =====
-- The user's printf against the kernel's vprintfmt: the same bytes, but for the NUL that the kernel
-- prints before the digits of a number.
use simple_rv64os.Base.{
  ℕ, ◌+◌, ◌%◌, ◌^◌, ◌≡◌, refl, sym, ◌∙◌, ap, subst, Bool, true, false, Option, none, some, List, [],
  ◌∷◌, ◌++◌, ltb, ◌==◌, if◌then◌else◌,
}
use mathlib.Core.List.{append_assoc, append-nil}
use simple_rv64os.Base.Lists.{length}
use simple_rv64os.Base.Word.{add64, sub64}
use simple_rv64os.Printk.{
  Arg, word, text, Format, to_long, hex_loop, hexdigits, long_digits, from_last, emit, finish,
  put_signed, put_unsigned, put_hex, convert_word, takes_word, convert, format_byte, format_loop,
  result_of, initial, vprintfmt,
}
use simple_rv64os.User.{
  UserFormat, store_char, ◌>>=◌, store_all, close, decimal_digits, user_hex, user_signed,
  user_unsigned, user_word, with_rest, user_convert, plain_char, user_byte_of, user_loop,
  empty_buffer, user_vprintfmt,
}

-- A text without its NUL bytes.
pub no_nul : List ℕ → List ℕ
no_nul [] = []
no_nul (c ∷ l) = if c == 0 then no_nul l else c ∷ no_nul l

no_nul-++ : (l k : List ℕ) → no_nul (l ++ k) ≡ no_nul l ++ no_nul k
unfolding no_nul
no_nul-++ [] k = refl
no_nul-++ (c ∷ l) k = go (c == 0) (no_nul-++ l k)
  where
    go :
        (b : Bool)
        → no_nul (l ++ k) ≡ no_nul l ++ no_nul k
        → (if b then no_nul (l ++ k) else c ∷ no_nul (l ++ k))
          ≡ (if b then no_nul l else c ∷ no_nul l) ++ no_nul k
    go true e = e
    go false e = ap (λ x. c ∷ x) e

-- Two formatters at the same place that have put out the same text.
pub record Same (f : Format) (u : UserFormat) : Type 0 where
  pub inside : f.in_format ≡ u.in_format
  pub long : f.longarg ≡ u.longarg
  pub bytes : no_nul f.out ≡ no_nul u.stored

>>=-eq-some :
    (o : Option UserFormat) (g : UserFormat → Option UserFormat) {b : UserFormat}
    → (o >>= g) ≡ some b
    → (a : UserFormat) × (o ≡ some a) × (g a ≡ some b)
unfolding ◌>>=◌
>>=-eq-some none g e = absurd (cc e)
>>=-eq-some (some a) g e = (a, refl, e)

store_char_lem :
    (c : ℕ) (u u' : UserFormat)
    → store_char c u ≡ some u'
    → u' ≡ record u { stored = u.stored ++ c ∷ [] }
unfolding store_char
store_char_lem c u u' e = go (ltb (length u.stored) 1000) e
  where
    go :
        (b : Bool)
        → (if b then some (record u { stored = u.stored ++ c ∷ [] }) else none) ≡ some u'
        → u' ≡ record u { stored = u.stored ++ c ∷ [] }
    go true e = cc e
    go false e = absurd (cc e)

store_all_lem :
    (l : List ℕ) (u u' : UserFormat)
    → store_all l u ≡ some u'
    → u' ≡ record u { stored = u.stored ++ l }
unfolding store_all
store_all_lem [] u u' e =
    let same : ◌≡◌ {A = UserFormat} u u' = cc e in
    sym same ∙ ap with_stored (sym (append-nil u.stored))
  where
    with_stored : List ℕ → UserFormat
    with_stored k = record u { stored = k }
store_all_lem (c ∷ l) u u' e =
    let (v, first, rest) = >>=-eq-some (store_char c u) (store_all l) e in
    let at = store_char_lem c u v first in
    store_all_lem l v u' rest ∙ ap grow at ∙ ap with_stored (append_assoc u.stored (c ∷ []) l)
  where
    grow : UserFormat → UserFormat
    grow x = record x { stored = x.stored ++ l }

    with_stored : List ℕ → UserFormat
    with_stored k = record u { stored = k }

-- Both put out a text that is the same without its NUL bytes.
Same-store_all :
    (f : Format) (k l : List ℕ) (n : ℕ) (u u' : UserFormat)
    → no_nul k ≡ no_nul l
    → store_all l u ≡ some u'
    → Same f u
    → Same (emit f k n) u'
unfolding emit
Same-store_all f k l n u u' e at s =
    subst (Same (emit f k n)) (sym (store_all_lem l u u' at)) record {
      inside = s.inside;
      long = s.long;
      bytes =
          no_nul-++ f.out k
          ∙ ap (λ x. x ++ no_nul k) s.bytes
          ∙ ap (λ x. no_nul u.stored ++ x) e
          ∙ sym (no_nul-++ u.stored l);
    }

Same-close :
    (f : Format) (n : ℕ) (u u' : UserFormat) → close n u ≡ some u' → Same f u → Same (finish f) u'
unfolding close finish
Same-close f n u u' e s =
    let same : ◌≡◌ {A = UserFormat}
        (record u { longarg = false; in_format = false; pos = add64 u.pos n }) u' =
      cc e in
    subst (Same (finish f)) same record { inside = refl; long = refl; bytes = s.bytes }

Same-finish :
    (f : Format) (k l : List ℕ) (n m : ℕ) (u u' : UserFormat)
    → no_nul k ≡ no_nul l
    → (store_all l u >>= close m) ≡ some u'
    → Same f u
    → Same (finish (emit f k n)) u'
Same-finish f k l n m u u' e at s =
    let (v, first, last) = >>=-eq-some (store_all l u) (close m) at in
    Same-close (emit f k n) m v u' last (Same-store_all f k l n u v e first s)

no_nul-from_last : (l : List ℕ) → no_nul (from_last l) ≡ no_nul (decimal_digits l)
unfolding no_nul from_last decimal_digits
no_nul-from_last [] = refl
no_nul-from_last (c ∷ l) = refl

Same-put_signed :
    (f : Format) (num : ℕ) (u u' : UserFormat)
    → user_signed num u ≡ some u'
    → Same f u
    → Same (put_signed f num) u'
unfolding user_signed put_signed store_all
Same-put_signed f num u u' e s = go (ltb num (2 ^ 63)) e
  where
    store_none : (v : UserFormat) → store_all [] u ≡ some v → Same f v
    store_none v at = subst (Same f) (cc at) s

    go :
        (minus : Bool)
        → (store_all (if minus then [] else 45 ∷ []) u
            >>= store_all (decimal_digits (long_digits (if minus then num else sub64 0 num)))
            >>= close (
                if minus
                then length (decimal_digits (long_digits (if minus then num else sub64 0 num))) + 1
                else length (decimal_digits (long_digits (if minus then num else sub64 0 num)))
                  + 2))
          ≡ some u'
        → Same
            (finish (
              emit
                (if minus then f else emit f (45 ∷ []) 1)
                (from_last (long_digits (if minus then num else sub64 0 num)))
                (length (long_digits (if minus then num else sub64 0 num)) + 1)))
            u'
    go true at =
        let (v, before, last) = >>=-eq-some (store_all [] u >>= store_all _) (close _) at in
        let (w, sign, shown) = >>=-eq-some (store_all [] u) (store_all _) before in
        Same-close _ _ v u' last
          (Same-store_all f _ _ _ w v (no_nul-from_last _) shown (store_none w sign))
    go false at =
        let (v, before, last) = >>=-eq-some (store_all (45 ∷ []) u >>= store_all _) (close _) at in
        let (w, sign, shown) = >>=-eq-some (store_all (45 ∷ []) u) (store_all _) before in
        Same-close _ _ v u' last (
          Same-store_all (emit f (45 ∷ []) 1) _ _ _ w v (no_nul-from_last _) shown
            (Same-store_all f (45 ∷ []) (45 ∷ []) 1 u w refl sign s))

Same-convert_word :
    (f : Format) (c w : ℕ) (u u' : UserFormat)
    → user_word c w u ≡ some u'
    → Same f u
    → Same (convert_word f c w) u'
unfolding user_word convert_word user_hex put_hex user_unsigned put_unsigned
Same-convert_word f c w u u' e s = simp s.long (go (c == 120) (c == 100) (c == 117) e)
  where
    num : ℕ
    num = to_long u.longarg w

    go :
        (x d n : Bool)
        → (if x
            then store_all (hex_loop (hexdigits u.longarg) num) u >>= close (hexdigits u.longarg)
            else if d
            then user_signed num u
            else if n
            then user_unsigned num u
            else store_all (w % 2 ^ 8 ∷ []) u >>= close 1)
          ≡ some u'
        → Same
            (if x
              then finish (emit f (hex_loop (hexdigits u.longarg) num) (hexdigits u.longarg))
              else if d
              then put_signed f num
              else if n
              then put_unsigned f num
              else finish (emit f (w % 2 ^ 8 ∷ []) 1))
            u'
    go true d n at = Same-finish f _ _ _ _ u u' refl at s
    go false true n at = Same-put_signed f num u u' at s
    go false false true at = Same-finish f _ _ _ _ u u' (no_nul-from_last _) at s
    go false false false at = Same-finish f _ _ _ _ u u' refl at s

-- What holds of the two where the user's has a result.
unfoldable pub Agree : Option (Format × List Arg) → Option (UserFormat × List Arg) → Type 0
Agree o o' =
    (u : UserFormat) (vl : List Arg)
    → o' ≡ some (u, vl)
    → (f : Format) × (o ≡ some (f, vl)) × Same f u

agree :
    (f : Format) (u : UserFormat) (vl : List Arg) → Same f u → Agree (some (f, vl)) (some (u, vl))
unfolding Agree
agree f u vl s u' vl' e =
    let same : ◌≡◌ {A = UserFormat × List Arg} (u, vl) (u', vl') = cc e in
    (f, ap (λ k. some (f, k)) (ap (λ x. x.1) same), subst (Same f) (ap (λ x. x.0) same) s)

Agree-none : (o : Option (Format × List Arg)) → Agree o none
unfolding Agree
Agree-none o u vl e = absurd (cc e)

Agree-with_rest :
    (f : Format) (o : Option UserFormat) (vl : List Arg)
    → ((u : UserFormat) → o ≡ some u → Same f u)
    → Agree (some (f, vl)) (with_rest vl o)
unfolding with_rest
Agree-with_rest f none vl each = Agree-none _
Agree-with_rest f (some u) vl each = agree f u vl (each u refl)

user_convert-Agree :
    (f : Format) (c : ℕ) (vl : List Arg) (u : UserFormat)
    → Same f u
    → Agree (convert f c vl) (user_convert c vl u)
unfolding convert user_convert
user_convert-Agree f c vl u s = go (c == 108) (takes_word c) (c == 115) vl
  where
    go :
        (l t b : Bool) (vl : List Arg)
        → Agree
            (if l
              then some (record f { longarg = true }, vl)
              else if t
              then elim vl [ word w ∷ rest ↦ some (convert_word f c w, rest) | _ ↦ none ]
              else if b
              then elim vl [ text k ∷ rest ↦ some (finish (emit f k (length k)), rest) | _ ↦ none ]
              else some (f, vl))
            (if l
              then some (record u { longarg = true }, vl)
              else if t
              then elim vl [ word w ∷ rest ↦ with_rest rest (user_word c w u) | _ ↦ none ]
              else if b
              then elim vl [
                | text k ∷ rest ↦ with_rest rest (store_all k u >>= close (length k))
                | _ ↦ none
              ]
              else some (u, vl))
    go true t b vl = agree _ _ vl record { inside = s.inside; long = refl; bytes = s.bytes }
    go false true b [] = Agree-none _
    go false true b (text k ∷ rest) = Agree-none _
    go false true b (word w ∷ rest) =
        Agree-with_rest _ _ rest (λ u' e. Same-convert_word f c w u u' e s)
    go false false true [] = Agree-none _
    go false false true (word w ∷ rest) = Agree-none _
    go false false true (text k ∷ rest) =
        Agree-with_rest _ _ rest (λ u' e. Same-finish f k k _ _ u u' refl e s)
    go false false false vl = agree f u vl s

plain_char-Same :
    (f : Format) (c : ℕ) (u u' : UserFormat)
    → plain_char c u ≡ some u'
    → Same f u
    → Same (emit f (c ∷ []) 1) u'
unfolding plain_char
plain_char-Same f c u u' e s =
    let (v, first, last) =
      >>=-eq-some (store_char c u) (λ x. some (record x { pos = add64 x.pos 1 })) e in
    let same : ◌≡◌ {A = UserFormat} (record v { pos = add64 v.pos 1 }) u' = cc last in
    let mid = Same-store_all f (c ∷ []) (c ∷ []) 1 u v refl (stored v first) s in
    subst (Same (emit f (c ∷ []) 1)) same
      record { inside = mid.inside; long = mid.long; bytes = mid.bytes }
  where
    stored : (v : UserFormat) → store_char c u ≡ some v → store_all (c ∷ []) u ≡ some v
    stored v first = unfold store_all ◌>>=◌ in rw first refl

pub user_byte_of-Agree :
    (f : Format) (c : ℕ) (vl : List Arg) (u : UserFormat)
    → Same f u
    → Agree (format_byte f c vl) (user_byte_of c vl u)
unfolding format_byte user_byte_of
user_byte_of-Agree f c vl u s = simp s.inside (go u.in_format (c == 37))
  where
    go :
        (i p : Bool)
        → Agree
            (if i
              then convert f c vl
              else if p
              then some (record f { in_format = true }, vl)
              else some (emit f (c ∷ []) 1, vl))
            (if i
              then user_convert c vl u
              else if p
              then some (record u { in_format = true }, vl)
              else with_rest vl (plain_char c u))
    go true p = user_convert-Agree f c vl u s
    go false true = agree _ _ vl record { inside = refl; long = s.long; bytes = s.bytes }
    go false false = Agree-with_rest _ _ vl (λ u' e. plain_char-Same f c u u' e s)

user_loop-Same :
    (fmt : List ℕ) (vl : List Arg) (f : Format) (u u' : UserFormat)
    → Same f u
    → user_loop fmt vl u ≡ some u'
    → (f' : Format) × (format_loop f fmt vl ≡ some f') × Same f' u'
unfolding user_loop format_loop Agree
user_loop-Same [] vl f u u' s e = (f, refl, subst (Same f) (cc e) s)
user_loop-Same (c ∷ fmt) vl f u u' s e =
    go (format_byte f c vl) (user_byte_of c vl u) (user_byte_of-Agree f c vl u s) e
      (λ g v vl' s' e'. user_loop-Same fmt vl' g v u' s' e')
  where
    go :
        (o : Option (Format × List Arg)) (o' : Option (UserFormat × List Arg))
        → Agree o o'
        → (elim o' [ none ↦ none | some (v, vl') ↦ user_loop fmt vl' v ]) ≡ some u'
        → ((g : Format) (v : UserFormat) (vl' : List Arg)
            → Same g v
            → user_loop fmt vl' v ≡ some u'
            → (f' : Format) × (format_loop g fmt vl' ≡ some f') × Same f' u')
        → (f' : Format) × ((elim o [ none ↦ none | some (g, vl') ↦ format_loop g fmt vl' ])
            ≡ some f')
          × Same f' u'
    go o none a e again = absurd (cc e)
    go o (some (v, vl')) a e again = let (g, at, s') = a v vl' refl in rw at (again g v vl' s' e)

-- Where the user's vprintfmt puts its text in the buffer, the kernel's prints the same format with the
-- same arguments, and but for NUL bytes the two texts are the same.
pub user_vprintfmt-same :
    (fmt : List ℕ) (vl : List Arg) (bytes : List ℕ)
    → user_vprintfmt fmt vl ≡ some bytes
    → (out : List ℕ) × (n : ℕ) × (vprintfmt fmt vl ≡ some (out, n)) × (no_nul out ≡ no_nul bytes)
unfolding user_vprintfmt vprintfmt result_of no_nul ◌>>=◌
user_vprintfmt-same fmt vl bytes e = go (user_loop fmt vl empty_buffer) e (λ u at.
    user_loop-Same fmt vl initial empty_buffer u record { inside = refl; long = refl; bytes = refl }
      at)
  where
    closed :
        (u : UserFormat) (o : Option UserFormat)
        → store_char 0 u ≡ o
        → (elim o [ none ↦ none | some v ↦ some v.stored ]) ≡ some bytes
        → no_nul bytes ≡ no_nul u.stored
    closed u none at e = absurd (cc e)
    closed u (some v) at e =
        let full : ◌≡◌ {A = List ℕ} v.stored bytes = cc e in
        ap no_nul (sym full)
        ∙ ap (λ x. no_nul x.stored) (store_char_lem 0 u v at)
        ∙ no_nul-++ u.stored (0 ∷ [])
        ∙ append-nil (no_nul u.stored)

    go :
        (o : Option UserFormat)
        → (elim (o >>= store_char 0) [ none ↦ none | some u ↦ some u.stored ]) ≡ some bytes
        → ((u : UserFormat)
            → o ≡ some u
            → (f' : Format) × (format_loop initial fmt vl ≡ some f') × Same f' u)
        → (out : List ℕ) × (n : ℕ) × (result_of (format_loop initial fmt vl) ≡ some (out, n))
          × (no_nul out ≡ no_nul bytes)
    go none e each = absurd (cc e)
    go (some u) e each =
        let (f, at, s) = each u refl in
        (f.out, f.pos % 2 ^ 32, ap result_of at, s.bytes ∙ sym (closed u (store_char 0 u) refl e))
