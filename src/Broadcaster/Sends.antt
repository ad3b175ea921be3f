-- ===== src/Broadcaster/Sends.antt =====
-- src/broadcaster.rs: what `send_to_chain` may do, as a relation, and that it does no more.
use axelar_relayer_ton.Prelude.{
  ℕ, zero, suc, ◌≤◌, String, ◌⊎◌, inl, inr, Bool, true, false, none, some, List, [], ◌∷◌, ◌≡◌, refl,
  ap, subst, ◌∙◌, Outcome, ok, err, panic, Bool-cases, length, arith, contains,
}
use axelar_relayer_ton.Externals.{Externals, OutAction}
use axelar_relayer_ton.HighLoadQueryId.{HighLoadQueryId, query_id}
use axelar_relayer_ton.TonWalletHighLoadV3.{TonWalletHighLoadV3}
use axelar_relayer_ton.Broadcaster.{
  BroadcasterError, rpc_call_failed, Surroundings, State, Post, Act, already_executed, then_act,
  answered, TonBroadcaster, wallet_key, post, post_boc, post_once, send_again, send_to_chain,
}
use axelar_relayer_ton.Client.{V3MessageResponse}

-- The posts of one sending, the first of them first, from an attempt on, with its result. A post is
-- followed by another only if the node answers that its query id was executed already; an accepted post
-- is the last, and its response is the result.
pub data Sends (around : Surroundings)
    : ℕ → List Post → Outcome BroadcasterError V3MessageResponse → Type 0 where
  nothing_posted : {n : ℕ} (e : BroadcasterError) → Sends around n [] (err e)
  panicked : {n : ℕ} → Sends around n [] panic
  accepted :
      {n : ℕ} (p : Post) (response : V3MessageResponse)
      → (around.attempt n).answer p.boc ≡ inr response
      → Sends around n (p ∷ []) (ok response)
  refused :
      {n : ℕ} (p : Post) (error : String)
      → (around.attempt n).answer p.boc ≡ inl error
      → Sends around n (p ∷ []) (err (rpc_call_failed error))
  retried :
      {n : ℕ} (p : Post) (error : String) (ps : List Post)
      {r : Outcome BroadcasterError V3MessageResponse}
      → (around.attempt n).answer p.boc ≡ inl error
      → contains error already_executed ≡ true
      → Sends around (suc n) ps r
      → Sends around n (p ∷ ps) r

-- Posts are kept with the last first.
abbrev pub posted : List Post → List Post → List Post
posted [] earlier = earlier
posted (p ∷ ps) earlier = posted ps (p ∷ earlier)

module _ (around : Surroundings) where
  -- A sending from a state: its posts, at most so many, come after the others, and the locks stay.
  pub record Sent (most : ℕ) (s : State) (r : Outcome BroadcasterError V3MessageResponse × State)
      : Type 0 where
    pub posts : List Post
    pub sends : Sends around s.tried posts r.0
    pub kept : r.1.posts ≡ posted posts s.posts
    pub few : length posts ≤ most
    pub locks : r.1.locks ≡ s.locks

  -- One attempt: it ends without a post, or it posts and has the answer.
  pub data Attempted (s : State)
      : Outcome BroadcasterError (String ⊎ V3MessageResponse) × State → Type 0 where
    failed :
        (e : BroadcasterError) (s' : State)
        → s'.posts ≡ s.posts
        → s'.locks ≡ s.locks
        → Attempted s (err e, s')
    crashed : (s' : State) → s'.posts ≡ s.posts → s'.locks ≡ s.locks → Attempted s (panic, s')
    done :
        (p : Post) (s' : State) (answer : String ⊎ V3MessageResponse)
        → (around.attempt s.tried).answer p.boc ≡ answer
        → s'.posts ≡ p ∷ s.posts
        → s'.tried ≡ suc s.tried
        → s'.locks ≡ s.locks
        → Attempted s (ok answer, s')

  -- A sending that ends with the attempt, without a post or with one.
  no_post-Sent :
      (s s' : State) (r : Outcome BroadcasterError V3MessageResponse) (most : ℕ)
      → Sends around s.tried [] r
      → s'.posts ≡ s.posts
      → s'.locks ≡ s.locks
      → Sent most s (r, s')
  no_post-Sent s s' r most sends posts locks = record {
    posts = [];
    sends = sends;
    kept = posts;
    few = omega arith;
    locks = locks;
  }

  one_post-Sent :
      (s s' : State) (p : Post) (r : Outcome BroadcasterError V3MessageResponse) (most : ℕ)
      → Sends around s.tried (p ∷ []) r
      → s'.posts ≡ p ∷ s.posts
      → s'.locks ≡ s.locks
      → Sent (suc most) s (r, s')
  one_post-Sent s s' p r most sends posts locks = record {
    posts = p ∷ [];
    sends = sends;
    kept = posts;
    few = omega arith;
    locks = locks;
  }

  more_posts-Sent :
      (s s' : State) (p : Post) (error : String) (most : ℕ)
      (r : Outcome BroadcasterError V3MessageResponse × State)
      → (around.attempt s.tried).answer p.boc ≡ inl error
      → contains error already_executed ≡ true
      → s'.posts ≡ p ∷ s.posts
      → s'.tried ≡ suc s.tried
      → s'.locks ≡ s.locks
      → Sent most s' r
      → Sent (suc most) s r
  more_posts-Sent s s' p error most r answers executed posts tried locks sent = record {
    posts = p ∷ sent.posts;
    sends =
        retried p error sent.posts answers executed
          (subst (λ n. Sends around n sent.posts r.0) tried sent.sends);
    kept = sent.kept ∙ ap (posted sent.posts) posts;
    few = omega (arith, sent.few);
    locks = sent.locks ∙ locks;
  }

  no_retry-Sent :
      (s : State) (r : Outcome BroadcasterError (String ⊎ V3MessageResponse) × State)
      → Attempted s r
      → Sent 1 s (answered none r)
  no_retry-Sent s r (failed e s' posts locks) =
      no_post-Sent s s' (err e) 1 (nothing_posted e) posts locks
  no_retry-Sent s r (crashed s' posts locks) = no_post-Sent s s' panic 1 panicked posts locks
  no_retry-Sent s r (done p s' (inr response) answers posts tried locks) =
      one_post-Sent s s' p (ok response) 0 (accepted p response answers) posts locks
  no_retry-Sent s r (done p s' (inl error) answers posts tried locks) =
      one_post-Sent s s' p (err (rpc_call_failed error)) 0 (refused p error answers) posts locks

  with_retry-Sent :
      (most : ℕ) (again : Act V3MessageResponse) (s : State)
      (r : Outcome BroadcasterError (String ⊎ V3MessageResponse) × State)
      → Attempted s r
      → ((s' : State) → Sent most s' (again s'))
      → Sent (suc most) s (answered (some again) r)
  with_retry-Sent most again s r (failed e s' posts locks) more =
      no_post-Sent s s' (err e) (suc most) (nothing_posted e) posts locks
  with_retry-Sent most again s r (crashed s' posts locks) more =
      no_post-Sent s s' panic (suc most) panicked posts locks
  with_retry-Sent most again s r (done p s' (inr response) answers posts tried locks) more =
      one_post-Sent s s' p (ok response) most (accepted p response answers) posts locks
  with_retry-Sent most again s r (done p s' (inl error) answers posts tried locks) more =
      elim (Bool-cases (contains error already_executed)) [
        | inl executed ↦
            rw (executed, answered)
              (more_posts-Sent s s' p error most (again s') answers executed posts tried locks
                (more s'))
        | inr other ↦
            rw (other, answered)
              (one_post-Sent s s' p (err (rpc_call_failed error)) most (refused p error answers)
                posts locks)
      ]

module _ (lib : Externals) (b : TonBroadcaster lib) (around : Surroundings)
    (wallet : TonWalletHighLoadV3 lib.Address) (actions : List (OutAction lib.Cell)) where
  post-Attempted :
      (s s' : State) (q : HighLoadQueryId) (boc : Outcome BroadcasterError String)
      → s'.posts ≡ s.posts
      → s'.tried ≡ suc s.tried
      → s'.locks ≡ s.locks
      → Attempted around s
          (then_act boc (post_boc lib b around wallet actions q (around.attempt s.tried)) s')
  post-Attempted s s' q (ok boc) posts tried locks =
      let p : Post = record { address = wallet_key lib wallet; query_id = query_id q; boc = boc } in
      done p _ _ refl (ap (λ ps. p ∷ ps) posts) tried locks
  post-Attempted s s' q (err e) posts tried locks = failed e s' posts locks
  post-Attempted s s' q panic posts tried locks = crashed s' posts locks

  id-Attempted :
      (s s' : State) (id : Outcome BroadcasterError HighLoadQueryId)
      → s'.posts ≡ s.posts
      → s'.tried ≡ suc s.tried
      → s'.locks ≡ s.locks
      → Attempted around s
          (then_act id (λ q. post lib b around wallet actions q (around.attempt s.tried)) s')
  id-Attempted s s' (ok q) posts tried locks = post-Attempted s s' q _ posts tried locks
  id-Attempted s s' (err e) posts tried locks = failed e s' posts locks
  id-Attempted s s' panic posts tried locks = crashed s' posts locks

  post_once-Attempted :
      (retrying : Bool) (s : State)
      → Attempted around s (post_once lib b around wallet actions retrying s)
  unfolding post_once
  post_once-Attempted retrying s = id-Attempted s _ _ refl refl refl

  send_again-Sent :
      (r : ℕ) (s : State) → Sent around (suc r) s (send_again lib b around wallet actions r s)
  unfolding send_again
  send_again-Sent zero s = no_retry-Sent around s _ (post_once-Attempted true s)
  send_again-Sent (suc r) s =
      with_retry-Sent around (suc r) (send_again lib b around wallet actions r) s _
        (post_once-Attempted true s) (send_again-Sent r)

  -- A sending posts at most twelve messages, whatever the node answers. It posts again only after the
  -- answer that the query id was executed already; if it returns a response, that is the node's answer
  -- to its last post, and no other of its posts was accepted; if it returns an error, none was. It does
  -- not touch the locks, and what was posted before stays.
  pub send_to_chain-Sent :
      (s : State) → Sent around 12 s (send_to_chain lib b around wallet actions none s)
  unfolding send_to_chain
  send_to_chain-Sent s =
      with_retry-Sent around 11 (send_again lib b around wallet actions 10) s _
        (post_once-Attempted false s) (send_again-Sent 10)
