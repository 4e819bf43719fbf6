-- ===== src/Prelude/Web.antt =====
-- What an exchange over HTTP gives: a status, and the body if it could be read.
use Prim.Native.Nat.{ℕ}
use Prim.Native.String.{String}
use mathlib.Core.Option.{Option}

pub record HttpReply : Type 0 where
  pub status : ℕ
  pub body : Option String
