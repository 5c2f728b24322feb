-- ===== src/Biz/Runs/Store.antt =====
-- What is asked of the state between requests on the sessions of
-- app/iam/service/internal/biz/authn.go, under each function of
-- app/iam/service/internal/data/authn.go on tokens.
use servora_iam.Prelude.{◌<◌, Str}
use servora_iam.Platform.Frames.{Offline}
use servora_iam.Platform.World.{Env, World}
use servora_iam.Data.Otp.{consume_token}
use servora_iam.Data.RefreshTokens.{
  save_refresh_token, get_refresh_token, delete_refresh_token, delete_user_refresh_tokens,
}
use servora_iam.Data.RefreshTokens.Index.{IsIndexed, save_refresh_token-IsIndexed}
use servora_iam.Data.RefreshTokens.Answers.{
  Offline-IsReady, Offline-IsIndexed, save-Answers, delete-Answers, delete_user-Answers,
}
use servora_iam.Data.RefreshTokens.Ready.{IsReady, IsReady-get}
use servora_iam.Data.RefreshTokens.Revocation.{delete_refresh_token-IsIndexed, get-IsIndexed}
use servora_iam.Data.RefreshTokens.Upkeep.{delete_user-IsIndexed}
use servora_iam.Biz.Config.{Config}
use servora_iam.Biz.Sessions.{refresh_lifetime}
use servora_iam.Biz.Links.Redeeming.{consume_token-IsReady, consume_token-IsIndexed}

module _ ⦃e : Env⦄ (cfg : Config) where
  -- Redis answers, and the sets of tokens are complete.
  pub record IsSound (w : World e) : Type 0 where
    pub ready : IsReady w
    pub indexed : IsIndexed (refresh_lifetime cfg) w

module _ ⦃e : Env⦄ (cfg : Config) (positive : 0 < refresh_lifetime cfg) where
  pub IsSound-Offline : {w w' : World e} → Offline w w' → IsSound cfg w → IsSound cfg w'
  IsSound-Offline o s = record {
    ready = Offline-IsReady o s.ready;
    indexed = Offline-IsIndexed (refresh_lifetime cfg) o s.indexed;
  }

  pub IsSound-save :
      (u t : Str) (w : World e)
      → IsSound cfg w
      → IsSound cfg (save_refresh_token u t (refresh_lifetime cfg) w).1
  IsSound-save u t w s =
      let (done, ready) = save-Answers u t (refresh_lifetime cfg) w s.ready in
      record {
        ready = ready;
        indexed = save_refresh_token-IsIndexed (refresh_lifetime cfg) u t w positive done s.indexed;
      }

  pub IsSound-get : (t : Str) (w : World e) → IsSound cfg w → IsSound cfg (get_refresh_token t w).1
  IsSound-get t w s = record {
    ready = IsReady-get t w s.ready;
    indexed = get-IsIndexed t (refresh_lifetime cfg) w s.indexed;
  }

  pub IsSound-delete :
      (t : Str) (w : World e) → IsSound cfg w → IsSound cfg (delete_refresh_token t w).1
  IsSound-delete t w s =
      let (done, ready) = delete-Answers t w s.ready in
      record {
        ready = ready;
        indexed = delete_refresh_token-IsIndexed t (refresh_lifetime cfg) w s.indexed done;
      }

  pub IsSound-delete_user :
      (u : Str) (w : World e) → IsSound cfg w → IsSound cfg (delete_user_refresh_tokens u w).1
  IsSound-delete_user u w s =
      let (done, ready) = delete_user-Answers u w s.ready in
      record {
        ready = ready;
        indexed = delete_user-IsIndexed (refresh_lifetime cfg) u w s.indexed done;
      }

  pub IsSound-consume :
      (p t : Str) (w : World e) → IsSound cfg w → IsSound cfg (consume_token p t w).1
  IsSound-consume p t w s = record {
    ready = consume_token-IsReady p t w s.ready;
    indexed = consume_token-IsIndexed p t (refresh_lifetime cfg) w s.indexed;
  }
