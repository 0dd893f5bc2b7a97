-- ===== src/Printk/Count.antt =====
-- The result of vprintfmt counts the bytes it gives to putch.
use simple_rv64os.Base.{
  ℕ, zero, suc, ◌+◌, ◌%◌, ◌^◌, ◌≡◌, refl, sym, ◌∙◌, ap, subst, Bool, true, false, Option, none,
  some, List, [], ◌∷◌, arith, ltb, ◌==◌, if◌then◌else◌,
}
use simple_rv64os.Base.Lists.{length, length-++}
use simple_rv64os.Printk.{
  Arg, word, text, Format, to_long, hex_loop, reverse_onto, from_last, emit, finish, put_signed,
  put_unsigned, put_hex, convert_word, takes_word, convert, format_byte, format_loop, result_of,
  initial, vprintfmt,
}

-- The position is the number of bytes given out.
IsCounted : Format → Type 0
IsCounted f = f.pos ≡ length f.out % 2 ^ 64

pub length-reverse_onto : (k l : List ℕ) → length (reverse_onto k l) ≡ length k + length l
unfolding reverse_onto length
length-reverse_onto [] l = omega arith
length-reverse_onto (x ∷ k) l = omega (arith, length-reverse_onto k (x ∷ l))

pub length-from_last : (l : List ℕ) → length (from_last l) ≡ length l + 1
unfolding from_last length
length-from_last [] = refl
length-from_last (x ∷ l) = omega (arith, length-reverse_onto (x ∷ l) [])

length-hex_loop : (n num : ℕ) → length (hex_loop n num) ≡ n
unfolding hex_loop length
length-hex_loop zero num = refl
length-hex_loop (suc n) num = omega (arith, length-hex_loop n num)

emit-IsCounted :
    (f : Format) (bytes : List ℕ) (n : ℕ)
    → length bytes ≡ n
    → IsCounted f
    → IsCounted (emit f bytes n)
unfolding emit IsCounted
emit-IsCounted f bytes n e c = omega (arith, length-++ f.out bytes)

finish-IsCounted : (f : Format) → IsCounted f → IsCounted (finish f)
unfolding finish IsCounted
finish-IsCounted f c = c

put_signed-IsCounted : (f : Format) (num : ℕ) → IsCounted f → IsCounted (put_signed f num)
unfolding put_signed
put_signed-IsCounted f num c =
    finish-IsCounted _ (emit-IsCounted _ _ _ (length-from_last _) (sign (ltb num (2 ^ 63))))
  where
    sign : (b : Bool) → IsCounted (if b then f else emit f (45 ∷ []) 1)
    sign true = c
    sign false = emit-IsCounted f (45 ∷ []) 1 (unfold length in refl) c

convert_word-IsCounted : (f : Format) (c w : ℕ) → IsCounted f → IsCounted (convert_word f c w)
unfolding convert_word put_unsigned put_hex
convert_word-IsCounted f c w h = go (c == 120) (c == 100) (c == 117)
  where
    go :
        (x d u : Bool)
        → IsCounted (
            if x
            then put_hex f (to_long f.longarg w)
            else if d
            then put_signed f (to_long f.longarg w)
            else if u
            then put_unsigned f (to_long f.longarg w)
            else finish (emit f (w % 2 ^ 8 ∷ []) 1))
    go true d u = finish-IsCounted _ (emit-IsCounted f _ _ (length-hex_loop _ _) h)
    go false true u = put_signed-IsCounted f (to_long f.longarg w) h
    go false false true = finish-IsCounted _ (emit-IsCounted f _ _ (length-from_last _) h)
    go false false false =
        finish-IsCounted _ (emit-IsCounted f (w % 2 ^ 8 ∷ []) 1 (unfold length in refl) h)

-- What holds of the format where there is one.
Holds : Option (Format × List Arg) → Type 0
Holds o = (f : Format) (vl : List Arg) → o ≡ some (f, vl) → IsCounted f

holds : (f : Format) (vl : List Arg) → IsCounted f → Holds (some (f, vl))
unfolding Holds
holds f vl c f' vl' e =
    let same : ◌≡◌ {A = Format × List Arg} (f, vl) (f', vl') = cc e in
    subst (λ x. IsCounted x.0) same c

Holds-none : Holds none
unfolding Holds
Holds-none f vl e = absurd (cc e)

convert-Holds : (f : Format) (c : ℕ) (vl : List Arg) → IsCounted f → Holds (convert f c vl)
unfolding convert
convert-Holds f c vl h = go (c == 108) (takes_word c) (c == 115) vl
  where
    go :
        (l t s : Bool) (vl : List Arg)
        → Holds (
            if l
            then some (record f { longarg = true }, vl)
            else if t
            then elim vl [ word w ∷ rest ↦ some (convert_word f c w, rest) | _ ↦ none ]
            else if s
            then elim vl [ text s ∷ rest ↦ some (finish (emit f s (length s)), rest) | _ ↦ none ]
            else some (f, vl))
    go true t s vl = holds (record f { longarg = true }) vl (unfold IsCounted in h)
    go false true s [] = Holds-none
    go false true s (word w ∷ rest) = holds _ rest (convert_word-IsCounted f c w h)
    go false true s (text b ∷ rest) = Holds-none
    go false false true [] = Holds-none
    go false false true (word w ∷ rest) = Holds-none
    go false false true (text b ∷ rest) =
        holds _ rest (finish-IsCounted _ (emit-IsCounted f b (length b) refl h))
    go false false false vl = holds f vl h

format_byte-Holds : (f : Format) (c : ℕ) (vl : List Arg) → IsCounted f → Holds (format_byte f c vl)
unfolding format_byte
format_byte-Holds f c vl h = go f.in_format (c == 37)
  where
    go :
        (i p : Bool)
        → Holds (
            if i
            then convert f c vl
            else if p
            then some (record f { in_format = true }, vl)
            else some (emit f (c ∷ []) 1, vl))
    go true p = convert-Holds f c vl h
    go false true = holds (record f { in_format = true }) vl (unfold IsCounted in h)
    go false false = holds _ vl (emit-IsCounted f (c ∷ []) 1 (unfold length in refl) h)

format_loop-IsCounted :
    (f : Format) (fmt : List ℕ) (vl : List Arg)
    → IsCounted f
    → (f' : Format) → format_loop f fmt vl ≡ some f'
    → IsCounted f'
unfolding format_loop
format_loop-IsCounted f [] vl h f' e = subst IsCounted (cc e) h
format_loop-IsCounted f (c ∷ fmt) vl h f' e =
    go (format_byte f c vl) (format_byte-Holds f c vl h) e
      (λ g vl' h' e'. format_loop-IsCounted g fmt vl' h' f' e')
  where
    go :
        (o : Option (Format × List Arg))
        → Holds o
        → (elim o [ none ↦ none | some (f', vl') ↦ format_loop f' fmt vl' ]) ≡ some f'
        → ((g : Format) (vl' : List Arg)
            → IsCounted g
            → format_loop g fmt vl' ≡ some f'
            → IsCounted f')
        → IsCounted f'
    go none h e again = absurd (cc e)
    go (some (g, vl')) h e again = again g vl' (unfold Holds in h g vl' refl) e

-- Where vprintfmt returns, its result is the number of bytes it gave to putch, modulo 2 ^ 32.
pub vprintfmt-length :
    (fmt : List ℕ) (vl : List Arg) (bytes : List ℕ) (n : ℕ)
    → vprintfmt fmt vl ≡ some (bytes, n)
    → n ≡ length bytes % 2 ^ 32
unfolding vprintfmt result_of IsCounted
vprintfmt-length fmt vl bytes n e =
    go (format_loop initial fmt vl)
      (λ f at. format_loop-IsCounted initial fmt vl (unfold length in refl) f at) e
  where
    go :
        (o : Option Format)
        → ((f : Format) → o ≡ some f → f.pos ≡ length f.out % 2 ^ 64)
        → result_of o ≡ some (bytes, n)
        → n ≡ length bytes % 2 ^ 32
    go none h e = absurd (cc e)
    go (some f) h e =
        let both : ◌≡◌ {A = List ℕ × ℕ} (f.out, f.pos % 2 ^ 32) (bytes, n) = cc e in
        let count = h f refl in
        sym (ap (λ x. x.1) both) ∙ omega arith ∙ ap (λ x. length x.0 % 2 ^ 32) both
