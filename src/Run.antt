-- ===== src/Run.antt =====
-- How a piece of the kernel ends: with a value, in the endless loop of halt()
-- (arch/riscv/include/halt.h), or stuck, by a NULL pointer or a loop that ran out of its rounds.
pub mod Always
use simple_rv64os.Base.{Option, none, some}

pub data Run (A : Type 0) : Type 0 where
  done : A → Run A
  halted : Run A
  stuck : Run A

abbrev pub of_option : {A : Type 0} → Option A → Run A
of_option none = stuck
of_option (some a) = done a

infixl 5 ◌>>=◌
unfoldable pub ◌>>=◌ : {A B : Type 0} → Run A → (A → Run B) → Run B
done a >>= f = f a
halted >>= f = halted
stuck >>= f = stuck
