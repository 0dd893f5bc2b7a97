-- ===== src/User/Room.antt =====
-- The user's buffer: a text that the kernel prints in fewer than 1000 bytes has room in it.
use simple_rv64os.Base.{
  ℕ, ◌%◌, ◌^◌, ◌<◌, ◌≤◌, ◌≡◌, refl, sym, ◌∙◌, ap, subst, Option, none, some, List, [], ◌∷◌, ◌++◌,
  arith,
}
use simple_rv64os.Base.Lists.{length}
use simple_rv64os.Printk.{Arg, Format, format_byte, format_loop, result_of, initial, vprintfmt}
use simple_rv64os.User.Same.{Same, Agree, user_byte_of-Agree, no_nul, user_vprintfmt-same}
use simple_rv64os.User.{UserFormat, ◌>>=◌, user_byte_of, user_loop, empty_buffer, user_vprintfmt}
use simple_rv64os.User.Store.{store_char-room}
use simple_rv64os.User.Fits.{Fits, user_byte_of-Fits}
use simple_rv64os.User.Grows.{format_loop-grows}

user_loop-room :
    (fmt : List ℕ) (vl : List Arg) (f : Format) (u : UserFormat) (f' : Format)
    → Same f u
    → length u.stored ≤ length f.out
    → format_loop f fmt vl ≡ some f'
    → length f'.out < 1000
    → (u' : UserFormat) × (user_loop fmt vl u ≡ some u') × (length u'.stored ≤ length f'.out)
unfolding format_loop user_loop Fits Agree
user_loop-room [] vl f u f' s few e room =
    let same : ◌≡◌ {A = Format} f f' = cc e in (u, refl, omega (arith, ap (λ x. length x.out) same))
user_loop-room (c ∷ fmt) vl f u f' s few e room =
    go (format_byte f c vl) (user_byte_of c vl u) (user_byte_of-Fits f c vl u s few)
      (user_byte_of-Agree f c vl u s) e
      (λ g v vl' s' few' e'. user_loop-room fmt vl' g v f' s' few' e' room)
  where
    go :
        (o : Option (Format × List Arg)) (o' : Option (UserFormat × List Arg))
        → Fits o o'
        → Agree o o'
        → (elim o [ none ↦ none | some (g, vl') ↦ format_loop g fmt vl' ]) ≡ some f'
        → ((g : Format) (v : UserFormat) (vl' : List Arg)
            → Same g v
            → length v.stored ≤ length g.out
            → format_loop g fmt vl' ≡ some f'
            → (u' : UserFormat) × (user_loop fmt vl' v ≡ some u')
              × (length u'.stored ≤ length f'.out))
        → (u' : UserFormat) × ((elim o' [ none ↦ none | some (v, vl') ↦ user_loop fmt vl' v ])
            ≡ some u')
          × (length u'.stored ≤ length f'.out)
    go none o' h a e again = absurd (cc e)
    go (some (g, vl')) o' h a e again =
        let below = format_loop-grows g fmt vl' f' e in
        let (v, at, few') = h g vl' refl (omega arith) in
        let (g', here, s') = a v vl' at in
        let same : ◌≡◌ {A = Format} g' g = cc (sym here) in
        let (u', run, len) = again g v vl' (subst (λ x. Same x v) same s') few' e in
        (u', rw at run, len)

-- Where the kernel's vprintfmt prints fewer than 1000 bytes, the user's has room for its text in the
-- buffer, and but for NUL bytes the two texts are the same.
pub user_vprintfmt-room :
    (fmt : List ℕ) (vl : List Arg) (out : List ℕ) (n : ℕ)
    → vprintfmt fmt vl ≡ some (out, n)
    → length out < 1000
    → (bytes : List ℕ) × (user_vprintfmt fmt vl ≡ some bytes) × (no_nul out ≡ no_nul bytes)
unfolding vprintfmt result_of user_vprintfmt ◌>>=◌
user_vprintfmt-room fmt vl out n e room =
    let (u, run, len) = loop (format_loop initial fmt vl) refl e in
    let bytes : List ℕ = u.stored ++ 0 ∷ [] in
    let stored : user_vprintfmt fmt vl ≡ some bytes = closed u run (omega (arith, len)) in
    let (out', n', e', same) = user_vprintfmt-same fmt vl bytes stored in
    let both : ◌≡◌ {A = List ℕ × ℕ} (out', n') (out, n) = cc (sym e' ∙ e) in
    (bytes, stored, ap (λ x. no_nul x.0) (sym both) ∙ same)
  where
    loop :
        (o : Option Format)
        → format_loop initial fmt vl ≡ o
        → result_of o ≡ some (out, n)
        → (u : UserFormat) × (user_loop fmt vl empty_buffer ≡ some u)
          × (length u.stored ≤ length out)
    loop none at e = absurd (cc e)
    loop (some f) at e =
        let both : ◌≡◌ {A = List ℕ × ℕ} (f.out, f.pos % 2 ^ 32) (out, n) = cc e in
        let len : length f.out ≡ length out = ap (λ x. length x.0) both in
        let (u, run, few) =
          user_loop-room fmt vl initial empty_buffer f
            record { inside = refl; long = refl; bytes = refl } (omega arith) at (omega arith) in
        (u, run, omega arith)

    closed :
        (u : UserFormat)
        → user_loop fmt vl empty_buffer ≡ some u
        → length u.stored < 1000
        → user_vprintfmt fmt vl ≡ some (u.stored ++ 0 ∷ [])
    closed u run few = rw (user_vprintfmt, run, ◌>>=◌, store_char-room 0 u few) refl
