-- ===== src/Effects.antt =====
-- Calls that change a state and may raise. What was written before a raise stays written, so the
-- state comes back after an exception too.
pub mod Ends
pub mod Post
use browseterm_device_agent.Prelude.{ℕ, String, ◌≡◌, refl, ◌⊎◌, inl, inr, Option, arith}

-- The status of a `grpc.RpcError`, as far as the agent tells them apart.
pub data StatusCode : Type 0 where
  unavailable : StatusCode
  other_code : ℕ → StatusCode

-- The classes of `httpx.HTTPError` that the agent tells apart.
pub data HttpFault : Type 0 where
  connect_error connect_timeout http_status_error other_http_error : HttpFault

-- The message of a CloudClientError: that of the transport, or "unexpected status n".
pub data CloudFailure : Type 0 where
  transport : String → CloudFailure
  unexpected_status : ℕ → CloudFailure

-- The exceptions, each with its `str(e)`. `stuck` is none of them: it stands for
-- a loop that has used up the model's fuel, and for a call of the outside world that does not come
-- back, where a cancel may reach the task. No `except Exception` catches it, as none catches
-- asyncio.CancelledError.
pub data Exc : Type 0 where
  maker_error : String → Exc
  cloud_error : CloudFailure → Exc
  rpc_error : Option StatusCode → String → Exc
  http_error : HttpFault → String → Exc
  other : String → Exc
  stuck : Exc

pub data Result (A : Type 0) : Type 0 where
  ok : A → Result A
  err : Exc → Result A

abbrev pub and_then : {A B : Type 0} → Result A → (A → Result B) → Result B
and_then (ok a) f = f a
and_then (err e) f = err e

abbrev pub Action : Type 0 → Type 0 → Type 0
Action S A = S → Result A × S

module _ {S A : Type 0} where
  abbrev pub pure : A → Action S A
  pure a s = (ok a, s)

  abbrev pub raise : Exc → Action S A
  raise e s = (err e, s)

  abbrev pub lift : Result A → Action S A
  lift r s = (r, s)

infixl 5 ◌>>=◌ ◌>>◌
abbrev pub ◌>>=◌ : {S A B : Type 0} → Action S A → (A → Action S B) → Action S B
◌>>=◌ m f s = let (r, s') = m s in elim r [ ok a ↦ f a s' | err e ↦ (err e, s') ]

abbrev pub ◌>>◌ : {S A B : Type 0} → Action S A → Action S B → Action S B
m >> k = m >>= λ _. k

-- `return f(m)` and what the `except` clauses make of each exception that `m` raises.
abbrev pub handle :
    {S A B : Type 0} → Action S A → (A → Action S B) → (Exc → Action S B) → Action S B
handle m f g s = let (r, s') = m s in elim r [ ok a ↦ f a s' | err e ↦ g e s' ]

pub Result-cases : {A : Type 0} (r : Result A) → ((a : A) × (r ≡ ok a)) ⊎ ((e : Exc) × (r ≡ err e))
Result-cases (ok a) = inl (a, refl)
Result-cases (err e) = inr (e, refl)
