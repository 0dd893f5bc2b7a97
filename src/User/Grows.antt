-- ===== src/User/Grows.antt =====
-- What the kernel's vprintfmt has printed only grows.
use simple_rv64os.Base.{
  ℕ, ◌%◌, ◌^◌, ◌≤◌, ◌≡◌, refl, ap, Bool, true, false, Option, none, some, List, [], ◌∷◌, arith, ltb,
  ◌==◌, if◌then◌else◌,
}
use simple_rv64os.Base.Lists.{length, length-++}
use simple_rv64os.Printk.{
  Arg, word, text, Format, to_long, emit, finish, put_signed, put_unsigned, put_hex, convert_word,
  takes_word, convert, format_byte, format_loop,
}

-- A step never takes printed bytes back.
Grows : Format → Option (Format × List Arg) → Type 0
Grows f o = (f' : Format) (vl : List Arg) → o ≡ some (f', vl) → length f.out ≤ length f'.out

grows : (f g : Format) (vl : List Arg) → length f.out ≤ length g.out → Grows f (some (g, vl))
unfolding Grows
grows f g vl le f' vl' e =
    let same : ◌≡◌ {A = Format × List Arg} (g, vl) (f', vl') = cc e in
    omega (arith, ap (λ x. length x.0.out) same)

Grows-none : (f : Format) → Grows f none
unfolding Grows
Grows-none f f' vl e = absurd (cc e)

length-emit : (f : Format) (k : List ℕ) (n : ℕ) → length f.out ≤ length (finish (emit f k n)).out
unfolding finish emit
length-emit f k n = omega (arith, length-++ f.out k)

length-put_signed : (f : Format) (num : ℕ) → length f.out ≤ length (put_signed f num).out
unfolding put_signed
length-put_signed f num =
    omega (arith, sign (ltb num (2 ^ 63)), length-emit (signed (ltb num (2 ^ 63))) _ _)
  where
    signed : Bool → Format
    signed b = if b then f else emit f (45 ∷ []) 1

    sign : (b : Bool) → length f.out ≤ length (if b then f else emit f (45 ∷ []) 1).out
    sign true = omega arith
    sign false = unfold emit in omega (arith, length-++ f.out (45 ∷ []))

length-convert_word : (f : Format) (c w : ℕ) → length f.out ≤ length (convert_word f c w).out
unfolding convert_word put_hex put_unsigned
length-convert_word f c w = go (c == 120) (c == 100) (c == 117)
  where
    go :
        (x d n : Bool)
        → length f.out
          ≤ length
              (if x
                then put_hex f (to_long f.longarg w)
                else if d
                then put_signed f (to_long f.longarg w)
                else if n
                then put_unsigned f (to_long f.longarg w)
                else finish (emit f (w % 2 ^ 8 ∷ []) 1)).out
    go true d n = length-emit f _ _
    go false true n = length-put_signed f _
    go false false true = length-emit f _ _
    go false false false = length-emit f _ _

convert-Grows : (f : Format) (c : ℕ) (vl : List Arg) → Grows f (convert f c vl)
unfolding convert
convert-Grows f c vl = go (c == 108) (takes_word c) (c == 115) vl
  where
    go :
        (l t b : Bool) (vl : List Arg)
        → Grows f (
            if l
            then some (record f { longarg = true }, vl)
            else if t
            then elim vl [ word w ∷ rest ↦ some (convert_word f c w, rest) | _ ↦ none ]
            else if b
            then elim vl [ text k ∷ rest ↦ some (finish (emit f k (length k)), rest) | _ ↦ none ]
            else some (f, vl))
    go true t b vl = grows f _ vl (omega arith)
    go false true b [] = Grows-none f
    go false true b (text k ∷ rest) = Grows-none f
    go false true b (word w ∷ rest) = grows f _ rest (length-convert_word f c w)
    go false false true [] = Grows-none f
    go false false true (word w ∷ rest) = Grows-none f
    go false false true (text k ∷ rest) = grows f _ rest (length-emit f k (length k))
    go false false false vl = grows f f vl (omega arith)

format_byte-Grows : (f : Format) (c : ℕ) (vl : List Arg) → Grows f (format_byte f c vl)
unfolding format_byte
format_byte-Grows f c vl = go f.in_format (c == 37)
  where
    go :
        (i p : Bool)
        → Grows f (
            if i
            then convert f c vl
            else if p
            then some (record f { in_format = true }, vl)
            else some (emit f (c ∷ []) 1, vl))
    go true p = convert-Grows f c vl
    go false true = grows f _ vl (omega arith)
    go false false = grows f _ vl (unfold emit in omega (arith, length-++ f.out (c ∷ [])))

pub format_loop-grows :
    (f : Format) (fmt : List ℕ) (vl : List Arg) (f' : Format)
    → format_loop f fmt vl ≡ some f'
    → length f.out ≤ length f'.out
unfolding format_loop Grows
format_loop-grows f [] vl f' e =
    let same : ◌≡◌ {A = Format} f f' = cc e in omega (arith, ap (λ x. length x.out) same)
format_loop-grows f (c ∷ fmt) vl f' e =
    go (format_byte f c vl) (format_byte-Grows f c vl) e
      (λ g vl' e'. format_loop-grows g fmt vl' f' e')
  where
    go :
        (o : Option (Format × List Arg))
        → Grows f o
        → (elim o [ none ↦ none | some (g, vl') ↦ format_loop g fmt vl' ]) ≡ some f'
        → ((g : Format) (vl' : List Arg)
            → format_loop g fmt vl' ≡ some f'
            → length g.out ≤ length f'.out)
        → length f.out ≤ length f'.out
    go none h e again = absurd (cc e)
    go (some (g, vl')) h e again = omega (arith, h g vl' refl, again g vl' e)
