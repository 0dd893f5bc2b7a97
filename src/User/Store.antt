-- ===== src/User/Store.antt =====
-- Conversions of the user's printf that have room in the buffer.
use simple_rv64os.Base.{
  ℕ, ◌+◌, ◌-◌, ◌%◌, ◌^◌, ◌<◌, ◌≤◌, ◌≡◌, refl, subst, Bool, true, false, Option, some, List, [], ◌∷◌,
  ◌++◌, arith, ltb, ◌==◌, if◌then◌else◌, lt→ltb,
}
use simple_rv64os.Base.Lists.{length, length-++}
use simple_rv64os.Base.Word.{add64, sub64}
use simple_rv64os.Printk.{
  Format, to_long, hex_loop, hexdigits, digits, negative_digits, long_digits, from_last, emit,
  finish, put_signed, put_unsigned, put_hex, convert_word,
}
use simple_rv64os.User.{
  UserFormat, store_char, ◌>>=◌, store_all, close, decimal_digits, user_hex, user_signed,
  user_unsigned, user_word,
}

-- The text stored is at most as long as `out`, which has room in the buffer.
unfoldable pub Stores : Option UserFormat → List ℕ → Type 0
Stores o out = (u : UserFormat) × (o ≡ some u) × (length u.stored ≤ length out)

pub store_char-room :
    (c : ℕ) (u : UserFormat)
    → length u.stored < 1000
    → store_char c u ≡ some (record u { stored = u.stored ++ c ∷ [] })
unfolding store_char
store_char-room c u room = rw (lt→ltb (length u.stored) 1000 room) refl

store_all-room :
    (l : List ℕ) (u : UserFormat)
    → length u.stored + length l ≤ 1000
    → (u' : UserFormat) × (store_all l u ≡ some u')
      × (length u'.stored ≡ length u.stored + length l)
unfolding store_all length ◌>>=◌
store_all-room [] u room = (u, refl, omega arith)
store_all-room (c ∷ l) u room =
    let v : UserFormat = record u { stored = u.stored ++ c ∷ [] } in
    let longer : length v.stored ≡ length u.stored + 1 = one c u in
    let (u', e, len) = store_all-room l v (omega arith) in
    (u', rw (store_char-room c u (omega arith)) e, omega arith)
  where
    one : (c : ℕ) (u : UserFormat) → length (u.stored ++ c ∷ []) ≡ length u.stored + 1
    one c u = length-++ u.stored (c ∷ [])

pub store_all-Stores :
    (l k out : List ℕ) (u : UserFormat) (m : ℕ)
    → length l ≤ length k
    → length u.stored ≤ length out
    → length (out ++ k) < 1000
    → Stores (store_all l u >>= close m) (out ++ k)
unfolding Stores ◌>>=◌ close
store_all-Stores l k out u m fits few room =
    let (u', e, len) = store_all-room l u (omega (arith, length-++ out k)) in
    (
      record u' { longarg = false; in_format = false; pos = add64 u'.pos m },
      rw e refl,
      omega (arith, length-++ out k),
    )

length-decimal_digits : (l : List ℕ) → length (decimal_digits l) ≤ length (from_last l)
unfolding decimal_digits from_last length
length-decimal_digits [] = omega arith
length-decimal_digits (d ∷ l) = omega arith

user_signed-Stores :
    (f : Format) (num : ℕ) (u : UserFormat)
    → length u.stored ≤ length f.out
    → length (put_signed f num).out < 1000
    → Stores (user_signed num u) (put_signed f num).out
unfolding put_signed user_signed finish emit
user_signed-Stores f num u few room = go (ltb num (2 ^ 63)) room
  where
    go :
        (minus : Bool)
        → length (
            (if minus then f else emit f (45 ∷ []) 1).out
            ++ from_last (long_digits (if minus then num else sub64 0 num)))
          < 1000
        → Stores
            (store_all (if minus then [] else 45 ∷ []) u
              >>= store_all (decimal_digits (long_digits (if minus then num else sub64 0 num)))
              >>= close (
                  if minus
                  then length (decimal_digits (long_digits (if minus then num else sub64 0 num)))
                    + 1
                  else length (decimal_digits (long_digits (if minus then num else sub64 0 num)))
                    + 2))
            ((if minus then f else emit f (45 ∷ []) 1).out
              ++ from_last (long_digits (if minus then num else sub64 0 num)))
    go true room =
        let e : store_all [] u ≡ some u = unfold store_all in refl in
        rw e (unfold ◌>>=◌ in store_all-Stores _ _ f.out u _ (length-decimal_digits _) few room)
    go false room =
        let out : List ℕ = f.out ++ 45 ∷ [] in
        let shown : List ℕ = from_last (long_digits (sub64 0 num)) in
        let (v, e, len) =
          store_all-room (45 ∷ []) u
            (omega (arith, length-++ out shown, length-++ f.out (45 ∷ []))) in
        rw e (
          unfold ◌>>=◌ in
          store_all-Stores _ shown out v _ (length-decimal_digits _)
            (omega (arith, len, length-++ f.out (45 ∷ []))) room)

pub user_word-Stores :
    (f : Format) (c w : ℕ) (u : UserFormat)
    → f.longarg ≡ u.longarg
    → length u.stored ≤ length f.out
    → length (convert_word f c w).out < 1000
    → Stores (user_word c w u) (convert_word f c w).out
unfolding convert_word user_word user_hex put_hex user_unsigned put_unsigned finish emit
user_word-Stores f c w u long few room = go (c == 120) (c == 100) (c == 117) room
  where
    buffer : Bool → List ℕ
    buffer b =
        if ltb (to_long b w) (2 ^ 63)
        then digits 20 (to_long b w)
        else negative_digits 20 (sub64 0 (to_long b w))

    shown : (x d n : Bool) → Format
    shown x d n =
        if x
        then put_hex f (to_long f.longarg w)
        else if d
        then put_signed f (to_long f.longarg w)
        else if n
        then put_unsigned f (to_long f.longarg w)
        else finish (emit f (w % 2 ^ 8 ∷ []) 1)

    go :
        (x d n : Bool)
        → length (shown x d n).out < 1000
        → Stores
            (if x
              then user_hex (to_long u.longarg w) u
              else if d
              then user_signed (to_long u.longarg w) u
              else if n
              then user_unsigned (to_long u.longarg w) u
              else store_all (w % 2 ^ 8 ∷ []) u >>= close 1)
            (shown x d n).out
    go true d n room =
        let k : List ℕ = hex_loop (hexdigits f.longarg) (to_long f.longarg w) in
        subst
          (λ b.
            Stores
              (store_all (hex_loop (hexdigits u.longarg) (to_long b w)) u
                >>= close (hexdigits u.longarg))
              (f.out ++ k))
          long
          (subst
            (λ b.
              Stores
                (store_all (hex_loop (hexdigits b) (to_long f.longarg w)) u >>= close (hexdigits b))
                (f.out ++ k))
            long (store_all-Stores k k f.out u (hexdigits f.longarg) (omega arith) few room))
    go false true n room =
        subst (λ b. Stores (user_signed (to_long b w) u) (put_signed f (to_long f.longarg w)).out)
          long (user_signed-Stores f (to_long f.longarg w) u few room)
    go false false true room =
        let k : List ℕ = from_last (buffer f.longarg) in
        subst
          (λ b.
            Stores
              (store_all (decimal_digits (buffer b)) u
                >>= close (length (decimal_digits (buffer b)) - 1))
              (f.out ++ k))
          long
          (store_all-Stores (decimal_digits (buffer f.longarg)) k f.out u _
            (length-decimal_digits (buffer f.longarg)) few room)
    go false false false room =
        store_all-Stores (w % 2 ^ 8 ∷ []) (w % 2 ^ 8 ∷ []) f.out u 1 (omega arith) few room
