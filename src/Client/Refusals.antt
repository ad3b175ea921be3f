-- ===== src/Client/Refusals.antt =====
-- src/client.rs: when the node's refusal of a message is told apart from other failures.
use axelar_relayer_ton.Prelude.{
  ℕ, String, ◌⊎◌, inl, inr, ◌≡◌, ◌≢◌, refl, ◌↔◌, err, Bool-cases, ==_iff, ◌==◌, nat_eq, ◌>>=◌,
}
use axelar_relayer_ton.Types.{append, lift_err}
use axelar_relayer_ton.Client.{
  bad_request, bad_response, connection_failed, V3ErrorResponse, Response, TonRpcClient,
  bad_request_body, handle_non_success_response, is_success, read, as_is, endpoint, post_v3_message,
}

module _ {A : Type 0} (self : TonRpcClient A) where
  -- The node answered 400 with a body that reads as an error with this text.
  abbrev pub Refused : String ⊎ Response → String → Type 0
  Refused answer m =
      (response : Response) × (text : String) × (body : V3ErrorResponse) × ((answer ≡ inr response)
        × ((response.status ≡ 400)
            × ((response.body ≡ inr text)
                × ((self.http.error_from_str text ≡ inr body) × (body.error ≡ m)))))

  bad_request_body-bad_request :
      (r : String ⊎ V3ErrorResponse) (m : String)
      → bad_request_body r ≡ bad_request m
      → (body : V3ErrorResponse) × ((r ≡ inr body) × (body.error ≡ m))
  bad_request_body-bad_request (inl e) m h = cc
  bad_request_body-bad_request (inr body) m h = (body, (refl, cc))

  handle-bad_request :
      (status : ℕ) (text m : String)
      → handle_non_success_response self status text ≡ bad_request m
      → (status ≡ 400)
        × ((body : V3ErrorResponse) × ((self.http.error_from_str text ≡ inr body)
              × (body.error ≡ m)))
  unfolding handle_non_success_response
  handle-bad_request status text m h = elim (Bool-cases (status == 400)) [
    | inl is_400 ↦ (
      (==_iff status 400).0 is_400,
      bad_request_body-bad_request (self.http.error_from_str text) m (rw is_400 at h),
    )
    | inr other ↦ (let fails = rw other at h in cc)
  ]

  lift_err-bad_request :
      {B : Type 0} (what : String) (r : String ⊎ B) (m : String)
      → lift_err (λ e. bad_response (append what e)) r ≢ err (bad_request m)
  lift_err-bad_request what (inl e) m h = cc
  lift_err-bad_request what (inr b) m h = cc

  read-Refused :
      {B : Type 0} (what : String) (from_str : String → String ⊎ B) (status : ℕ)
      (body : String ⊎ String) (m : String)
      → read self as_is what from_str (record { status = status; body = body })
        ≡ err (bad_request m)
      → Refused (inr (record { status = status; body = body })) m
  read-Refused what from_str status (inl e) m h = cc
  read-Refused what from_str status (inr text) m h = elim (Bool-cases (is_success status)) [
    | inl success ↦ absurd (lift_err-bad_request what (from_str text) m (rw success at h))
    | inr failure ↦
        (let h1 = rw failure at h in
          let (is_400, (error_body, (reads, error))) = handle-bad_request status text m (cc) in
          (
            record { status = status; body = inr text },
            text,
            error_body,
            (refl, (is_400, (refl, (reads, error)))),
          ))
  ]

  Refused-read :
      {B : Type 0} (what : String) (from_str : String → String ⊎ B) (response : Response)
      (m : String)
      → Refused (inr response) m
      → read self as_is what from_str response ≡ err (bad_request m)
  unfolding handle_non_success_response
  Refused-read what from_str response m
        (given, text, body, (same, (is_400, (has_text, (reads, error))))) =
      let same_response : response ≡ given = cc in
      rw (same_response, is_400, has_text, reads, error)

  answered-Refused :
      {B : Type 0} (what : String) (from_str : String → String ⊎ B) (answer : String ⊎ Response)
      (m : String)
      → (lift_err connection_failed answer >>= read self as_is what from_str ≡ err (bad_request m))
        ↔ Refused answer m
  answered-Refused what from_str (inl e) m =
      (λ h. cc, λ refused. (let (given, text, body, (same, facts)) = refused in cc))
  answered-Refused what from_str (inr response) m = (
    read-Refused what from_str response.status response.body m,
    Refused-read what from_str response m,
  )

  -- `post_v3_message` reports a refusal, which is the error `BadRequest`, if and only if the node
  -- answered with the status 400 and a body that reads as an error, and its text is the one of that
  -- body: no failure of the connection, no other status and no other body is taken for it.
  pub post_v3_message-Refused :
      (boc m : String)
      → (post_v3_message self boc ≡ err (bad_request m))
        ↔ Refused (self.http.post (endpoint self "/api/v3/message") self.api_key boc) m
  unfolding post_v3_message
  post_v3_message-Refused boc m =
      answered-Refused "Failed to parse success response: " self.http.message_from_str
        (self.http.post (endpoint self "/api/v3/message") self.api_key boc) m
