-- ===== src/Task/Cancellation.antt =====
-- include/wss/cancellation.hpp and `spawn_cancellable` of include/wss/scheduler.hpp: tokens share a flag,
-- which a task body reads through its context. A `shared_ptr` is the number of the flag it points to;
-- copying a token copies the number.
use thread_pool_runtime.Prelude.{
  ℕ, suc, ◌<◌, ◌≤◌, ◌≡◌, Bool, true, false, if◌then◌else◌, ◌==◌, List, [], ◌∷◌,
}
use thread_pool_runtime.Prelude.Family.{update}

pub record CancellationToken : Type 0 where
  pub flag : ℕ

pub record CancellationContext : Type 0 where
  pub token : CancellationToken

-- The flags made so far, which are those below `made`.
pub record Flags : Type 0 where
  pub made : ℕ
  pub value : ℕ → Bool

-- `CancellationToken()`
unfoldable pub make_token : Flags → CancellationToken × Flags
make_token s =
    (record { flag = s.made }, record { made = suc s.made; value = update s.value s.made false })

unfoldable pub cancel : CancellationToken → Flags → Flags
cancel tok s = record s { value = update s.value tok.flag true }

unfoldable pub is_cancelled : CancellationToken → Flags → Bool
is_cancelled tok s = s.value tok.flag

unfoldable pub context : CancellationToken → CancellationContext
context tok = record { token = tok }

-- `CancellationContext::is_cancelled`
unfoldable pub context_is_cancelled : CancellationContext → Flags → Bool
context_is_cancelled ctx s = is_cancelled ctx.token s

-- The body that `spawn_cancellable` gives to `spawn`.
unfoldable pub cancellable_body {ℓ} :
    {A : Type ℓ} → CancellationToken → (CancellationContext → A) → A
cancellable_body tok f = let ctx = context tok in f ctx

-- What the holders of tokens and the task bodies do, in the order of the flag's accesses: a poll is on
-- behalf of the token that the poller holds, or that the task was spawned with, and has an answer.
pub data Use : Type 0 where
  makes : CancellationToken → Use
  cancels : CancellationToken → Use
  polls : CancellationToken → Bool → Use

pub data UseStep (s : Flags) : Use → Flags → Type 0 where
  make_step : UseStep s (makes (make_token s).0) (make_token s).1
  cancel_step :
      (tok : CancellationToken) → tok.flag < s.made → UseStep s (cancels tok) (cancel tok s)
  ask_step :
      (tok : CancellationToken) → tok.flag < s.made → UseStep s (polls tok (is_cancelled tok s)) s
  -- The body of a task spawned with the token polls its context.
  body_step :
      (tok : CancellationToken)
      → tok.flag < s.made
      → UseStep s (polls tok (cancellable_body tok (λ ctx. context_is_cancelled ctx s))) s

pub data UseRun (s : Flags) : List Use → Flags → Type 0 where
  start : UseRun s [] s
  later :
      {es : List Use} {t u : Flags} {e : Use} → UseRun s es t → UseStep t e u → UseRun s (e ∷ es) u

abbrev pub no_flags : Flags
no_flags = record { made = 0; value = λ i. false }

-- Some step has cancelled through a copy of the token of flag `a`.
abbrev pub was_cancelled : ℕ → List Use → Bool
was_cancelled a [] = false
was_cancelled a (cancels tok ∷ es) = if tok.flag == a then true else was_cancelled a es
was_cancelled a (makes tok ∷ es) = was_cancelled a es
was_cancelled a (polls tok b ∷ es) = was_cancelled a es

-- Each poll has answered whether its token was cancelled before.
abbrev pub AnswersTruly : List Use → Type 0
AnswersTruly [] = Unit
AnswersTruly (polls tok b ∷ es) = (b ≡ was_cancelled tok.flag es) × AnswersTruly es
AnswersTruly (makes tok ∷ es) = AnswersTruly es
AnswersTruly (cancels tok ∷ es) = AnswersTruly es

record Inv (es : List Use) (s : Flags) : Type 0 where
  exact : (a : ℕ) → a < s.made → s.value a ≡ was_cancelled a es
  fresh : (a : ℕ) → s.made ≤ a → was_cancelled a es ≡ false
