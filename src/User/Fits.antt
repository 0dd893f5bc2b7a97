-- ===== src/User/Fits.antt =====
-- Steps of the user's printf that have room in the buffer.
use simple_rv64os.Base.{
  ℕ, ◌<◌, ◌≤◌, ◌≡◌, refl, ◌∙◌, ap, Bool, true, false, Option, none, some, List, [], ◌∷◌, ◌++◌,
  arith, ◌==◌, if◌then◌else◌,
}
use simple_rv64os.Base.Lists.{length, length-++}
use simple_rv64os.Base.Word.{add64}
use simple_rv64os.Printk.{
  Arg, word, text, Format, emit, finish, convert_word, takes_word, convert, format_byte,
}
use simple_rv64os.User.Same.{Same}
use simple_rv64os.User.{
  UserFormat, ◌>>=◌, store_all, close, user_word, with_rest, user_convert, plain_char, user_byte_of,
}
use simple_rv64os.User.Store.{Stores, store_char-room, store_all-Stores, user_word-Stores}

-- Where the kernel's step gives a text that has room, the user's step stores its own.
unfoldable pub Fits : Option (Format × List Arg) → Option (UserFormat × List Arg) → Type 0
Fits o o' =
    (f : Format) (vl : List Arg)
    → o ≡ some (f, vl)
    → length f.out < 1000
    → (u : UserFormat) × (o' ≡ some (u, vl)) × (length u.stored ≤ length f.out)

fits :
    (f : Format) (u : UserFormat) (vl : List Arg)
    → length u.stored ≤ length f.out
    → Fits (some (f, vl)) (some (u, vl))
unfolding Fits
fits f u vl few f' vl' e room =
    let same : ◌≡◌ {A = Format × List Arg} (f, vl) (f', vl') = cc e in
    (u, ap (λ k. some (u, k)) (ap (λ x. x.1) same), omega (arith, ap (λ x. length x.0.out) same))

Fits-none : (o' : Option (UserFormat × List Arg)) → Fits none o'
unfolding Fits
Fits-none o' f vl e room = absurd (cc e)

Fits-with_rest :
    (f : Format) (o : Option UserFormat) (vl : List Arg)
    → (length f.out < 1000 → Stores o f.out)
    → Fits (some (f, vl)) (with_rest vl o)
unfolding Fits Stores with_rest
Fits-with_rest f o vl stores f' vl' e room =
    let same : ◌≡◌ {A = Format × List Arg} (f, vl) (f', vl') = cc e in
    let len : length f.out ≡ length f'.out = ap (λ x. length x.0.out) same in
    let (u, at, few) = stores (omega arith) in
    (u, ap (with_rest vl) at ∙ ap (λ k. some (u, k)) (ap (λ x. x.1) same), omega arith)

user_convert-Fits :
    (f : Format) (c : ℕ) (vl : List Arg) (u : UserFormat)
    → f.longarg ≡ u.longarg
    → length u.stored ≤ length f.out
    → Fits (convert f c vl) (user_convert c vl u)
unfolding convert user_convert
user_convert-Fits f c vl u long few = go (c == 108) (takes_word c) (c == 115) vl
  where
    go :
        (l t b : Bool) (vl : List Arg)
        → Fits
            (if l
              then some (record f { longarg = true }, vl)
              else if t
              then elim vl [ word w ∷ rest ↦ some (convert_word f c w, rest) | _ ↦ none ]
              else if b
              then elim vl [ text k ∷ rest ↦ some (finish (emit f k (length k)), rest) | _ ↦ none ]
              else some (f, vl))
            (if l
              then some (record u { longarg = true }, vl)
              else if t
              then elim vl [ word w ∷ rest ↦ with_rest rest (user_word c w u) | _ ↦ none ]
              else if b
              then elim vl [
                | text k ∷ rest ↦ with_rest rest (store_all k u >>= close (length k))
                | _ ↦ none
              ]
              else some (u, vl))
    go true t b vl = fits _ _ vl few
    go false true b [] = Fits-none _
    go false true b (text k ∷ rest) = Fits-none _
    go false true b (word w ∷ rest) = Fits-with_rest _ _ rest (user_word-Stores f c w u long few)
    go false false true [] = Fits-none _
    go false false true (word w ∷ rest) = Fits-none _
    go false false true (text k ∷ rest) = Fits-with_rest _ _ rest (λ room. emitted k room)
      where
        emitted :
            (k : List ℕ)
            → length (finish (emit f k (length k))).out < 1000
            → Stores (store_all k u >>= close (length k)) (finish (emit f k (length k))).out
        emitted k room =
            unfold finish emit in store_all-Stores k k f.out u (length k) (omega arith) few room
    go false false false vl = fits f u vl few

plain_char-Stores :
    (f : Format) (c : ℕ) (u : UserFormat)
    → length u.stored ≤ length f.out
    → length (emit f (c ∷ []) 1).out < 1000
    → Stores (plain_char c u) (emit f (c ∷ []) 1).out
unfolding plain_char emit Stores ◌>>=◌
plain_char-Stores f c u few room =
    let grown = length-++ f.out (c ∷ []) in
    let one = length-++ u.stored (c ∷ []) in
    (
      record u { stored = u.stored ++ c ∷ []; pos = add64 u.pos 1 },
      rw (store_char-room c u (omega (arith, grown))) refl,
      omega (arith, grown, one),
    )

pub user_byte_of-Fits :
    (f : Format) (c : ℕ) (vl : List Arg) (u : UserFormat)
    → Same f u
    → length u.stored ≤ length f.out
    → Fits (format_byte f c vl) (user_byte_of c vl u)
unfolding format_byte user_byte_of
user_byte_of-Fits f c vl u s few = simp s.inside (go u.in_format (c == 37))
  where
    go :
        (i p : Bool)
        → Fits
            (if i
              then convert f c vl
              else if p
              then some (record f { in_format = true }, vl)
              else some (emit f (c ∷ []) 1, vl))
            (if i
              then user_convert c vl u
              else if p
              then some (record u { in_format = true }, vl)
              else with_rest vl (plain_char c u))
    go true p = user_convert-Fits f c vl u s.long few
    go false true = fits _ _ vl few
    go false false = Fits-with_rest _ _ vl (plain_char-Stores f c u few)
