-- ===== src/Data/RefreshTokens/Sessions/Refinement.antt =====
-- The map of refresh tokens beside what app/iam/service/internal/data/authn.go keeps in Redis.
use servora_iam.Prelude.{
  ℕ, ◌+◌, ◌≤◌, ◌<◌, ◌≡◌, ◌⊎◌, refl, sym, ap, ◌∙◌, Bool, true, false, inl, inr, Option, none, some,
  List, [], ◌∷◌, Str, ◌==◌, ltb, if◌then◌else◌, arith,
}
use servora_iam.Errors.{failure}
use servora_iam.Exec.{result_of_option}
use servora_iam.Platform.World.{Env, World}
use servora_iam.Data.RefreshTokens.{
  save_refresh_token, get_refresh_token, delete_refresh_token, delete_user_refresh_tokens,
}
use servora_iam.Data.RefreshTokens.Index.{
  IsIndexed, owner, is_listed, elapse, elapse-IsIndexed, owner-save, save_refresh_token-IsIndexed,
}
use servora_iam.Data.RefreshTokens.Frames.{
  OnRedis-save, OnRedis-get, OnRedis-delete, OnRedis-delete_user,
}
use servora_iam.Data.RefreshTokens.Ready.{IsReady, IsReady-get}
use servora_iam.Data.RefreshTokens.Answers.{save-Answers, delete-Answers, delete_user-Answers}
use servora_iam.Data.RefreshTokens.Upkeep.{delete_user-IsIndexed}
use servora_iam.Data.RefreshTokens.Revocation.{
  get_exact, owner-get, get-IsIndexed, owner-delete, delete_refresh_token-IsIndexed,
  owner-delete_user, delete_user_revokes,
}
use servora_iam.Data.RefreshTokens.Sessions.Tracking.{
  IsTracked, issue, save-IsTracked, get-IsTracked, delete-IsTracked, delete_user-IsTracked,
}
use servora_iam.Data.RefreshTokens.Sessions.{
  Sessions, alive, Operation, save, get, delete, delete_user, wait, Answer, done, answer_of, Allows,
  saved, got, deleted, ended, waited, clock_after, Permits, start, next, found, perform,
  perform_all,
}

alive-if :
    (b : Bool) (n : ℕ) (x y : Option (Str × ℕ))
    → alive n (if b then x else y) ≡ (if b then alive n x else alive n y)
alive-if true n x y = refl
alive-if false n x y = refl

found-answer : (o : Option Str) → found (result_of_option o failure) ≡ answer_of o
found-answer none = refl
found-answer (some u) = refl

kept_or_gone :
    (b : Bool) (x : Option (Str × ℕ))
    → ((if b then none else x) ≡ x) ⊎ ((b ≡ true) × ((if b then none else x) ≡ none))
kept_or_gone true x = inr (refl, refl)
kept_or_gone false x = inl refl

issued_or_kept :
    {A B : Type 0} {b c : Bool}
    → (b ≡ true → c ≡ true)
    → A ⊎ ((b ≡ true) × B)
    → A ⊎ ((c ≡ true) × B)
issued_or_kept h (inl same) = inl same
issued_or_kept h (inr (listed, gone)) = inr (h listed, gone)

module _ ⦃e : Env⦄ (lifetime : ℕ) (positive : 0 < lifetime) where
  -- Redis answers, its sets are complete and list issued tokens only, and each token is that of the
  -- user that the map says, until it ends.
  pub record Represents (a : Sessions) (w : World e) : Type 0 where
    pub ready : IsReady w
    pub indexed : IsIndexed lifetime w
    pub tracked : IsTracked a.issued w
    pub view : (n : ℕ) (t : Str) → w.clock ≤ n → owner w n t ≡ alive n (a.held t)

  -- What a step of Redis is in the map.
  record Simulates (a : Sessions) (op : Operation) (w : World e) (x : Answer) (w' : World e)
      : Type 0 where
    after : Sessions
    allowed : Allows lifetime w.clock a op x after
    represented : Represents after w'
    clock : w'.clock ≡ clock_after op w.clock

  module _ (a : Sessions) (w : World e) (s : Represents a w) where
    save-Simulates :
        (u t : Str) → Simulates a (save u t) w done (save_refresh_token u t lifetime w).1
    save-Simulates u t =
        let (fine, ready) = save-Answers u t lifetime w s.ready in
        let clock = (OnRedis-save u t lifetime w).clock in
        record {
          after = record {
            held = λ x. if t == x then some (u, w.clock + lifetime) else a.held x;
            issued = issue u t a.issued;
          };
          allowed = saved u t;
          represented = record {
            ready = ready;
            indexed = save_refresh_token-IsIndexed lifetime u t w positive fine s.indexed;
            tracked = save-IsTracked lifetime u t a.issued w positive fine s.tracked;
            view = λ n x le.
                let le' : w.clock ≤ n = omega (arith, clock) in
                owner-save lifetime u t w positive fine n x le'
                ∙ (ap
                      (λ o.
                        if t == x then if ltb n (w.clock + lifetime) then some u else none else o)
                      (s.view n x le')
                    ∙ sym (alive-if (t == x) n (some (u, w.clock + lifetime)) (a.held x)));
          };
          clock = clock;
        }

    get-Simulates :
        (t : Str)
        → Simulates a (get t) w (found (get_refresh_token t w).0) (get_refresh_token t w).1
    get-Simulates t =
        let clock = (OnRedis-get t w).clock in
        let answer : found (get_refresh_token t w).0 ≡ answer_of (alive w.clock (a.held t)) =
          ap found (get_exact t w s.ready.up)
          ∙ (found-answer (owner w w.clock t) ∙ ap answer_of (s.view w.clock t (omega arith))) in
        rw answer (record {
          after = a;
          allowed = got t;
          represented = record {
            ready = IsReady-get t w s.ready;
            indexed = get-IsIndexed t lifetime w s.indexed;
            tracked = get-IsTracked t a.issued w s.tracked;
            view = λ n x le. owner-get t w n x ∙ s.view n x (omega (arith, clock));
          };
          clock = clock;
        })

    delete-Simulates : (t : Str) → Simulates a (delete t) w done (delete_refresh_token t w).1
    delete-Simulates t =
        let (fine, ready) = delete-Answers t w s.ready in
        let clock = (OnRedis-delete t w).clock in
        record {
          after = record a { held = λ x. if t == x then none else a.held x };
          allowed = deleted t;
          represented = record {
            ready = ready;
            indexed = delete_refresh_token-IsIndexed t lifetime w s.indexed fine;
            tracked = delete-IsTracked t a.issued w fine s.tracked;
            view = λ n x le.
                let le' : w.clock ≤ n = omega (arith, clock) in
                owner-delete t w s.ready.up fine n x le'
                ∙ (ap (λ o. if t == x then none else o) (s.view n x le')
                    ∙ sym (alive-if (t == x) n none (a.held x)));
          };
          clock = clock;
        }

    delete_user-Simulates :
        (u : Str) → Simulates a (delete_user u) w done (delete_user_refresh_tokens u w).1
    delete_user-Simulates u =
        let (fine, ready) = delete_user-Answers u w s.ready in
        let clock = (OnRedis-delete_user u w).clock in
        let held : Str → Option (Str × ℕ) =
          λ x. if is_listed w w.clock u x then none else a.held x in
        let view : (n : ℕ) (x : Str)
            → w.clock ≤ n
            → owner (delete_user_refresh_tokens u w).1 n x ≡ alive n (held x) =
          λ n x le.
            owner-delete_user u w fine n x
            ∙ (ap (λ o. if is_listed w w.clock u x then none else o) (s.view n x le)
                ∙ sym (alive-if (is_listed w w.clock u x) n none (a.held x))) in
        record {
          after = record a { held = held };
          allowed =
              ended u held
                (λ x.
                  issued_or_kept (s.tracked w.clock u x (omega arith))
                    (kept_or_gone (is_listed w w.clock u x) (a.held x)))
                (λ x n le.
                  rw⁻¹ (view n x le) (delete_user_revokes lifetime u w s.indexed fine n x le));
          represented = record {
            ready = ready;
            indexed = delete_user-IsIndexed lifetime u w s.indexed fine;
            tracked = delete_user-IsTracked u a.issued w fine s.tracked;
            view = λ n x le. view n x (omega (arith, clock));
          };
          clock = clock;
        }

    wait-Simulates : (d : ℕ) → Simulates a (wait d) w done (elapse d w)
    wait-Simulates d = record {
      after = a;
      allowed = waited d;
      represented = record {
        ready = record { up = s.ready.up; sets = λ u n le. s.ready.sets u n (omega arith) };
        indexed = elapse-IsIndexed lifetime d w s.indexed;
        tracked = λ n u t le. s.tracked n u t (omega arith);
        view = λ n x le. s.view n x (omega arith);
      };
      clock = refl;
    }

  perform-Simulates :
      (a : Sessions) (op : Operation) (w : World e)
      → Represents a w
      → Simulates a op w (perform lifetime op w).0 (perform lifetime op w).1
  unfolding perform
  perform-Simulates a (save u t) w s =
      let (fine, _) = save-Answers u t lifetime w s.ready in rw fine (save-Simulates a w s u t)
  perform-Simulates a (get t) w s = get-Simulates a w s t
  perform-Simulates a (delete t) w s =
      let (fine, _) = delete-Answers t w s.ready in rw fine (delete-Simulates a w s t)
  perform-Simulates a (delete_user u) w s =
      let (fine, _) = delete_user-Answers u w s.ready in rw fine (delete_user-Simulates a w s u)
  perform-Simulates a (wait d) w s = wait-Simulates a w s d

  -- Where the lifetime of tokens is positive and Redis represents a map from tokens to their users,
  -- what it answers to operations on refresh tokens, one after another and with time between them, is
  -- what the map permits: saved tokens are found until they end, deleted ones are not, no token of a
  -- user is found after all of them were deleted, which ends no token that was never saved for that
  -- user, and no operation fails.
  pub perform_all-Permits :
      (ops : List Operation) (a : Sessions) (w : World e)
      → Represents a w
      → Permits lifetime w.clock a ops (perform_all lifetime ops w)
  unfolding perform_all
  perform_all-Permits [] a w s = start
  perform_all-Permits (op ∷ ops) a w s =
      let step = perform-Simulates a op w s in
      let w' : World e = (perform lifetime op w).1 in
      let rest = perform_all-Permits ops step.after w' step.represented in
      next step.allowed (rw step.clock at rest)
