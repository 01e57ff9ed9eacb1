-- ===== src/Api/Routes/Requests.antt =====
-- What the schemas of the requests guarantee behind the routes.
use file_processing_platform.Common.{
  ℕ, ◌+◌, ◌≤◌, ◌<◌, ◌/◌, String, Bool, true, ◌≡◌, ◌≢◌, ◌∙◌, ◌⊎◌, inl, inr, Option, none, some, List,
  [], ◌∷◌, ◌++◌, arith, Bool-cases, leb, ◌&&◌, or_else, eq_false, ◌-◌, ◌*◌,
}
use file_processing_platform.Common.Lists.{All, All-append, length, length-take-le, drop}
use file_processing_platform.Common.Exec.{ok, err}
use file_processing_platform.Errors.{Exception}
use file_processing_platform.Schema.{DbFile, NewJob, JobStatus}
use file_processing_platform.Db.Files.{FileRepo}
use file_processing_platform.Db.Jobs.{JobRepo}
use file_processing_platform.Db.Users.{UserRepo}
use file_processing_platform.Api.Platform.{Storage, Runtime, UrlParser, Config}
use file_processing_platform.Api.AuthService.{
  Crypto, AuthServiceConfig, PublicUser, Session, login, refresh, sign_access_token,
}
use file_processing_platform.Api.AuthService.Sessions.{CryptoLaws, refresh-login}
use file_processing_platform.Api.Guards.{authenticate}
use file_processing_platform.Api.FileService.{Paginated, list}
use file_processing_platform.Api.JobService.{JobWorld, JobPayload, create}
use file_processing_platform.Api.Schemas.{
  Ajv, optional, ListQuery, JobBody, Credentials, list_files_query, list_options, create_job_body,
  login_body, text_of,
}
use file_processing_platform.Api.Routes.{Reply}
use file_processing_platform.Api.Routes.Statuses.{Result-cases}
use file_processing_platform.Api.Routes.Auth.{
  AuthReply, Cookie, set, post_login, post_refresh, refresh_cookie,
}
use file_processing_platform.Api.Routes.Files.{get_files}
use file_processing_platform.Api.Routes.Jobs.{post_job}

page_limit :
    (ajv : Ajv) (q : ListQuery) → list_files_query ajv q ≡ true → (list_options ajv q).limit ≤ 100
unfolding list_files_query list_options
page_limit ajv q h = ground arith

module _ {S : Type 0} (files : FileRepo S) (storage : Storage) (runtime : Runtime)
    (urls : UrlParser) (config : Config) (crypto : Crypto) (access_secret : String)
    (ajv : Ajv) where
  -- A page of `GET /files` has at most 100 rows, whatever the query.
  pub page_bound :
      (header : Option String) (query : ListQuery) (now : ℕ) (s : S)
      (reply : Reply (Paginated DbFile))
      → (get_files files storage runtime urls config crypto access_secret ajv header query now s).0
        ≡ ok reply
      → length reply.body.rows ≤ 100
  unfolding get_files list
  page_bound header query now s reply h =
      elim (Result-cases (authenticate crypto access_secret header now tt).0) [
        | inl (caller, known) ↦
            let o = list_options ajv query in
            let page = files.find_all_by_user_lem caller.user_id o s in
            let rows = files.listed caller.user_id o.search o.limit ((o.page - 1) * o.limit) s in
            let short = length-take-le o.limit (drop ((o.page - 1) * o.limit) rows) in
            elim (Bool-cases (list_files_query ajv query)) [
              | inl valid ↦
                  let limit = page_limit ajv query valid in
                  ground (arith, known, valid, page, short, limit, h)
              | inr invalid ↦ ground (arith, invalid, h)
            ]
        | inr (e, refused) ↦ ground (arith, refused, h)
      ]

-- The quality of a payload, where it has one.
abbrev pub InRange : Option ℕ → Type 0
InRange none = Unit
InRange (some q) = (1 ≤ q) × (q ≤ 100)

InRange-of_check : (o : Option ℕ) → optional (λ n. leb 1 n && leb n 100) o ≡ true → InRange o
InRange-of_check none h = tt
InRange-of_check (some q) h = ground arith

module _ {S : Type 0} (files : FileRepo S) (jobs : JobRepo S files) (crypto : Crypto)
    (access_secret : String) (ajv : Ajv) where
  -- What the worker may count on in a payload: the quality is from 1 to 100 if there is one, and the
  -- id of the file is a UUID.
  abbrev pub IsServable : JobPayload → Type 0
  IsServable p = InRange p.quality × (ajv.is_uuid p.file_id ≡ true)

  in_range :
      (body : JobBody)
      → create_job_body ajv body ≡ true
      → InRange body.quality × (ajv.is_uuid (text_of body.file_id) ≡ true)
  unfolding create_job_body
  in_range body valid =
      (InRange-of_check body.quality (ground (arith, valid)), ground (arith, valid))

  same_queue :
      (header : Option String) (body : JobBody) (now : ℕ) (w : JobWorld S) (e : Exception)
      → (authenticate crypto access_secret header now tt).0 ≡ err e
      → (post_job files jobs crypto access_secret ajv header body now w).1.queue ≡ w.queue
  unfolding post_job
  same_queue header body now w e refused = ground (arith, refused)

  added :
      (q r : List JobPayload) (p : JobPayload)
      → (r ≡ q) ⊎ (r ≡ q ++ p ∷ [])
      → IsServable p
      → All IsServable q
      → All IsServable r
  added q r p (inl e) new old = rw e old
  added q r p (inr e) new old = rw e (All-append IsServable q (p ∷ []) old (new, tt))

  -- A request to `POST /jobs`, whatever it holds, leaves a queue of which every payload has a quality
  -- from 1 to 100, if it has one, and a UUID as the id of its file, if the queue was like that.
  pub queue-IsServable :
      (header : Option String) (body : JobBody) (now : ℕ) (w : JobWorld S)
      → All IsServable w.queue
      → All IsServable (post_job files jobs crypto access_secret ajv header body now w).1.queue
  unfolding post_job create create_job_body
  queue-IsServable header body now w old =
      elim (Result-cases (authenticate crypto access_secret header now tt).0) [
        | inr (e, refused) ↦ rw (same_queue header body now w e refused) old
        | inl (caller, known) ↦ elim (Bool-cases (create_job_body ajv body)) [
          | inr invalid ↦ rw invalid old
          | inl valid ↦
              let k = text_of body.file_id in
              let d : NewJob = record {
                user_id = caller.user_id;
                file_id = k;
                type = or_else body.type "default";
                status = JobStatus.pending;
                progress = 0;
              } in
              added w.queue _
                (record {
                  job_id = (jobs.create d now w.db).0.id;
                  file_id = k;
                  type = or_else body.type "default";
                  user_id = caller.user_id;
                  quality = body.quality;
                })
                (ground (arith, valid, known)) (in_range body valid) old
        ]
      ]

module _ {S : Type 0} (users : UserRepo S) (crypto : Crypto) (cfg : AuthServiceConfig) (ajv : Ajv)
    (is_production : Bool) where
  present :
      (token : String) (later : ℕ) (t : S) (x : String)
      → token ≢ ""
      → refresh users crypto cfg token later t ≡ (ok x, t)
      → post_refresh users crypto cfg ajv is_production (some token) later t
        ≡ (ok (record { status = 200; body = inr x }), t)
  unfolding post_refresh
  present token later t x filled e = ground (arith, eq_false token "" filled, e)

  logged_in :
      (body : Credentials) (now : ℕ) (s : S) (r : Session)
      → login_body ajv body ≡ true
      → (login users crypto cfg (text_of body.email) (text_of body.password) now s).0 ≡ ok r
      → (post_login users crypto cfg ajv is_production body now s).1
        ≡ (login users crypto cfg (text_of body.email) (text_of body.password) now s).1
  unfolding post_login
  logged_in body now s r valid e = ground (arith, valid, e)

  -- The value of the cookie that `POST /auth/login` sets, sent back to `POST /auth/refresh` before
  -- the refresh token expires, is answered with status 200 and an access token of the user who
  -- logged in, and no row changes.
  pub login_cookie_refreshes :
      (laws : CryptoLaws crypto) (body : Credentials) (now later : ℕ) (s : S)
      (a : AuthReply (PublicUser × String)) (c : Cookie)
      → (post_login users crypto cfg ajv is_production body now s).0 ≡ ok a
      → a.cookie ≡ set c
      → a.reply.body.0.id ≢ ""
      → c.value ≢ ""
      → later / 1000 < now / 1000 + cfg.refresh_ttl_seconds
      → post_refresh users crypto cfg ajv is_production
          (some c.value)
          later
          (post_login users crypto cfg ajv is_production body now s).1
        ≡ (
          ok (record {
            status = 200;
            body = inr (sign_access_token users crypto cfg a.reply.body.0.id none later);
          }),
          (post_login users crypto cfg ajv is_production body now s).1,
        )
  unfolding post_login post_refresh refresh_cookie
  login_cookie_refreshes laws body now later s a c h set_c named filled fresh =
      let email = text_of body.email in
      let password = text_of body.password in
      elim (Bool-cases (login_body ajv body)) [
        | inr invalid ↦ ground (arith, invalid, h)
        | inl valid ↦ elim (Result-cases (login users crypto cfg email password now s).0) [
          | inr (e, failed) ↦ ground (arith, valid, failed, h)
          | inl (r, e) ↦
              let same : a.reply.body.0.id ≡ r.user.id = ground (arith, valid, e, h) in
              let token : c.value ≡ r.refresh_token = ground (arith, valid, e, h, set_c) in
              let again =
                refresh-login users crypto cfg laws email password now later s r e
                  (λ x. named (same ∙ x)) fresh in
              let after = logged_in body now s r valid e in
              present c.value later (post_login users crypto cfg ajv is_production body now s).1
                (sign_access_token users crypto cfg a.reply.body.0.id none later) filled
                (rw (after, token, same) again)
        ]
      ]
