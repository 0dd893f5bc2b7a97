-- ===== src/Fault/Walk.antt =====
-- Tables of another task: a walk through pages of data does not change while these are kept.
use simple_rv64os.Base.{
  ℕ, zero, suc, ◌+◌, ◌*◌, ◌%◌, ◌^◌, ◌<◌, ◌≤◌, ◌≡◌, sym, ◌∙◌, ap, subst, false, none, some, arith,
}
use simple_rv64os.Buddy.Take.{is_free}
use simple_rv64os.Bytes.{load64}
use simple_rv64os.Bytes.Words.{load64-same}
use simple_rv64os.Defs.{pa2va}
use simple_rv64os.Paging.{Machine}
use simple_rv64os.Paging.Space.{look, digit, fields, view, Owner}
use simple_rv64os.Paging.Space.Grow.{DataKept}
use simple_rv64os.Paging.Space.Look.{look-agree, look-agree_leaf}
use simple_rv64os.Paging.Space.Page.{page_at}
use simple_rv64os.Paging.Walk.{child}

-- The start of a page in use that is no table of the tree.
pub record IsData (d : ℕ) (m : Machine) (owner : Owner) (t : ℕ) : Type 0 where
  pub page : ℕ
  pub start : t ≡ page_at page
  pub within : page < 2 ^ d
  pub used : is_free d m.buddy page ≡ false
  pub plain : owner (page_at page) ≡ none

-- All tables on the way to a page, from `t` of level k down, are such pages.
unfoldable pub LiesOn : ℕ → ℕ → Machine → Owner → ℕ → ℕ → Type 0
LiesOn zero d m owner t page = IsData d m owner t
LiesOn (suc k) d m owner t page =
    IsData d m owner t
    × (load64 m.memory (t + 8 * digit (suc k) page) % 2 ≡ 1
        → LiesOn k d m owner (child (load64 m.memory (t + 8 * digit (suc k) page))) page)

module _ (d : ℕ) (m m' : Machine) (owner owner' : Owner) (kept : DataKept d m owner m' owner') where
  pub IsData-kept : (t : ℕ) → IsData d m owner t → IsData d m' owner' t
  IsData-kept t held =
      let (used, plain, _) = kept held.page held.within held.used held.plain in
      record {
        page = held.page;
        start = held.start;
        within = held.within;
        used = used;
        plain = plain;
      }

  pub byte-kept :
      (t : ℕ) → IsData d m owner t → (b : ℕ) → t ≤ b → b < t + 4096 → m'.memory b ≡ m.memory b
  byte-kept t held b lo hi =
      let (_, _, same) = kept held.page held.within held.used held.plain in
      same b (omega (arith, held.start)) (omega (arith, held.start))

  entry-kept :
      (t k page : ℕ)
      → IsData d m owner t
      → load64 m'.memory (t + 8 * digit k page) ≡ load64 m.memory (t + 8 * digit k page)
  entry-kept t k page held =
      let low : digit k page < 2 ^ 9 = omega arith in
      load64-same m'.memory m.memory (t + 8 * digit k page)
        (λ b lo hi. byte-kept t held b (omega arith) (omega arith))

  pub look-kept :
      (k t page : ℕ) → LiesOn k d m owner t page → look k m'.memory t page ≡ look k m.memory t page
  unfolding LiesOn
  look-kept zero t page held = look-agree_leaf m.memory m'.memory t page (entry-kept t 0 page held)
  look-kept (suc k) t page (held, below) =
      look-agree k m.memory m'.memory t page (entry-kept t (suc k) page held)
        (λ on. look-kept k (child (load64 m.memory (t + 8 * digit (suc k) page))) page (below on))

  pub LiesOn-kept : (k t page : ℕ) → LiesOn k d m owner t page → LiesOn k d m' owner' t page
  unfolding LiesOn
  LiesOn-kept zero t page held = IsData-kept t held
  LiesOn-kept (suc k) t page (held, below) =
      let same = entry-kept t (suc k) page held in
      (
        IsData-kept t held,
        λ on.
            subst (λ x. LiesOn k d m' owner' (child x) page) (sym same)
              (LiesOn-kept k (child (load64 m.memory (t + 8 * digit (suc k) page))) page
                (below (ap (λ x. x % 2) (sym same) ∙ on))),
      )

-- The walks for n pages from `first` on, and the frames they lead to, lie in such pages.
pub record IsReadable (d : ℕ) (m : Machine) (owner : Owner) (root n first : ℕ) : Type 0 where
  pub walks : (page : ℕ) → first ≤ page → page < first + n → LiesOn 2 d m owner root page
  pub frames :
      (page frame rights : ℕ)
      → first ≤ page
      → page < first + n
      → view m.memory root page ≡ some (frame, rights)
      → IsData d m owner (pa2va (frame * 4096))

pub LiesOn-top :
    (d : ℕ) (m : Machine) (owner : Owner) (t page : ℕ)
    → LiesOn 2 d m owner t page
    → IsData d m owner t
unfolding LiesOn
LiesOn-top d m owner t page (top, _) = top

pub view-kept :
    (d : ℕ) (m m' : Machine) (owner owner' : Owner) (root n first : ℕ)
    → DataKept d m owner m' owner'
    → IsReadable d m owner root n first
    → (page : ℕ) → first ≤ page
    → page < first + n
    → view m'.memory root page ≡ view m.memory root page
view-kept d m m' owner owner' root n first kept readable page lo hi =
    ap fields (look-kept d m m' owner owner' kept 2 root page (readable.walks page lo hi))

-- The pages behind the first.
pub IsReadable-next :
    (d : ℕ) (m m' : Machine) (owner owner' : Owner) (root n first : ℕ)
    → DataKept d m owner m' owner'
    → IsReadable d m owner root (suc n) first
    → IsReadable d m' owner' root n (first + 1)
IsReadable-next d m m' owner owner' root n first kept readable = record {
  walks = λ page lo hi.
      LiesOn-kept d m m' owner owner' kept 2 root page
        (readable.walks page (omega arith) (omega arith));
  frames = λ page frame rights lo hi here.
      let same =
        view-kept d m m' owner owner' root (suc n) first kept readable page (omega arith)
          (omega arith) in
      IsData-kept d m m' owner owner' kept (pa2va (frame * 4096))
        (readable.frames page frame rights (omega arith) (omega arith) (sym same ∙ here));
}
