-- ===== src/Run/Always.antt =====
-- What holds of the value a piece of the kernel ends with, if it ends with one.
use simple_rv64os.Base.{◌≡◌, refl, subst, Option, none, some}
use simple_rv64os.Run.{Run, done, halted, stuck, of_option, ◌>>=◌}

unfoldable pub Always : {A : Type 0} → (A → Type 0) → Run A → Type 0
Always P (done a) = P a
Always P halted = Unit
Always P stuck = Unit

pub Always-value : {A : Type 0} → (P : A → Type 0) (a : A) → P a → Always P (done a)
unfolding Always
Always-value P a p = p

pub Always-done :
    {A : Type 0} → (P : A → Type 0) (r : Run A) (a : A) → Always P r → r ≡ done a → P a
unfolding Always
Always-done P (done b) a all e = subst P (cc e) all
Always-done P halted a all e = absurd (cc e)
Always-done P stuck a all e = absurd (cc e)

pub Always-self : {A : Type 0} → (r : Run A) → Always (λ a. r ≡ done a) r
unfolding Always
Always-self (done a) = refl
Always-self halted = tt
Always-self stuck = tt

pub Always-any :
    {A B : Type 0}
    → (Q : B → Type 0) (r : Run A) (f : A → Run B) → ((a : A) → Always Q (f a))
    → Always Q (r >>= f)
unfolding Always ◌>>=◌
Always-any Q (done a) f each = each a
Always-any Q halted f each = tt
Always-any Q stuck f each = tt

pub Always->>= :
    {A B : Type 0}
    → (P : A → Type 0) (Q : B → Type 0) (r : Run A) (f : A → Run B) → Always P r
    → ((a : A) → P a → Always Q (f a))
    → Always Q (r >>= f)
unfolding Always ◌>>=◌
Always->>= P Q (done a) f all each = each a all
Always->>= P Q halted f all each = tt
Always->>= P Q stuck f all each = tt

-- The value of an option, with the equation that gives it.
pub Always-of_option :
    {A : Type 0}
    → (P : A → Type 0) (o : Option A) → ((a : A) → o ≡ some a → P a)
    → Always P (of_option o)
unfolding Always
Always-of_option P none each = tt
Always-of_option P (some a) each = each a refl

pub Always-weaken :
    {A : Type 0} → (P Q : A → Type 0) (r : Run A) → Always P r → ((a : A) → P a → Q a) → Always Q r
unfolding Always
Always-weaken P Q (done a) all each = each a all
Always-weaken P Q halted all each = tt
Always-weaken P Q stuck all each = tt

pub Always-option :
    {A B : Type 0}
    → (Q : B → Type 0) (o : Option A) (f : A → Run B) → ((a : A) → o ≡ some a → Always Q (f a))
    → Always Q (of_option o >>= f)
unfolding Always ◌>>=◌
Always-option Q none f each = tt
Always-option Q (some a) f each = each a refl
