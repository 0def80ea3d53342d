-- ===== src/Clients/Maker/Ends.antt =====
-- The calls of clients/container_maker_client.py come to an end, if those of the stub do.
use browseterm_device_agent.Prelude.{ℕ, String, ◌≢◌, Option, none, some, List, [], ◌∷◌, arith}
use browseterm_device_agent.Json.{Json, null, str, int, pos, arr, obj}
use browseterm_device_agent.Json.Access.{get, iterate}
use browseterm_device_agent.Effects.{Action, Exc, stuck, rpc_error, pure, lift, handle, ◌>>◌}
use browseterm_device_agent.Effects.Ends.{
  IsDone, HasEnd, and_then-IsDone, bind-HasEnd, handle-HasEnd,
}
use browseterm_device_agent.Clients.Retry.{call_with_retry}
use browseterm_device_agent.Clients.Retry.Effect.{call_with_retry-ends}
use browseterm_device_agent.Clients.Maker.{
  MakerApi, ContainerRequest, CreateContainerRequest, CreateArguments, is_retryable, default_policy,
  create_container, delete_container, save_container, build_create, wrap, accept, publish_of,
  publish_all,
}

-- Every call of the stub comes to an end.
pub record IsAnswering {W : Type 0} (api : MakerApi W) : Type 0 where
  pub create : (r : CreateContainerRequest) (id : String) → HasEnd (api.create r id)
  pub delete : (r : ContainerRequest) (id : String) → HasEnd (api.delete r id)
  pub save : (r : ContainerRequest) (id : String) → HasEnd (api.save r id)

pub get-IsDone : (j : Json) (k : String) (d : Json) → IsDone (get j k d)
unfolding get
get-IsDone (obj fs) k d = λ s. cc
get-IsDone _ k d = λ s. cc

iterate-IsDone : (j : Json) → IsDone (iterate j)
unfolding iterate
iterate-IsDone (arr xs) = λ s. cc
iterate-IsDone (obj fs) = λ s. cc
iterate-IsDone (str t) = λ s. cc
iterate-IsDone _ = λ s. cc

publish_of-IsDone : (p : Json) → IsDone (publish_of p)
unfolding publish_of
publish_of-IsDone p = ground (
  arith,
  get-IsDone p "publish_port" (int (pos 2222)),
  get-IsDone p "target_port" (int (pos 22)),
  get-IsDone p "protocol" (str "TCP"),
  get-IsDone p "node_port" null,
)

publish_all-IsDone : (ps : List Json) → IsDone (publish_all ps)
unfolding publish_all
publish_all-IsDone [] = λ s. cc
publish_all-IsDone (p ∷ ps) = ground (arith, publish_of-IsDone p, publish_all-IsDone ps)

build_create-IsDone : (a : CreateArguments) → IsDone (build_create a)
unfolding build_create
build_create-IsDone a =
    and_then-IsDone (iterate a.publish_information) _ (iterate-IsDone a.publish_information)
      λ ps. and_then-IsDone (publish_all ps) _ (publish_all-IsDone ps) λ published. λ s. cc

accept-HasEnd : {W : Type 0} (refused : Option String) → HasEnd (accept {S = W} refused)
accept-HasEnd none w = λ s. cc
accept-HasEnd (some message) w = λ s. cc

wrap-HasEnd :
    {W : Type 0} (A : Type 0) (prefix : String) (e : Exc)
    → e ≢ stuck
    → HasEnd (wrap {S = W} {A = A} prefix e)
unfolding wrap
wrap-HasEnd A prefix (rpc_error code message) alive w = λ s. cc
wrap-HasEnd A prefix _ alive w = λ s. alive (cc)

module _ {W A : Type 0} (pause : ℕ → W → W) (call : Action W A) (ends : HasEnd call) where
  abbrev requested : String → Action W A
  requested prefix =
      handle (call_with_retry (default_policy pause is_retryable) call) pure (wrap prefix)

  requested-HasEnd : (prefix : String) → HasEnd (requested prefix)
  requested-HasEnd prefix =
      handle-HasEnd (call_with_retry (default_policy pause is_retryable) call) pure
        (call_with_retry-ends (default_policy pause is_retryable) call ends) (λ a w s. cc)
        (wrap prefix) (wrap-HasEnd A prefix)

  request-HasEnd :
      (refused : Option String) (prefix : String) → HasEnd (accept refused >> requested prefix)
  request-HasEnd refused prefix =
      bind-HasEnd (accept refused) (λ done. requested prefix) (accept-HasEnd refused)
        λ done. requested-HasEnd prefix

module _ {W : Type 0} (api : MakerApi W) (answering : IsAnswering api) where
  pub create_container-HasEnd : (a : CreateArguments) → HasEnd (create_container api a)
  unfolding create_container
  create_container-HasEnd a =
      bind-HasEnd (lift (build_create a)) _ (λ w. build_create-IsDone a)
        λ request.
          request-HasEnd api.pause _ (answering.create request a.request_id)
            (api.refuse_create request) _

  module _ (container_id : String) (network_name : Json) (request_id : String) where
    pub delete_container-HasEnd : HasEnd (delete_container api container_id network_name request_id)
    unfolding delete_container
    delete_container-HasEnd =
        request-HasEnd api.pause _ (answering.delete _ request_id) (api.refuse _) _

    pub save_container-HasEnd : HasEnd (save_container api container_id network_name request_id)
    unfolding save_container
    save_container-HasEnd =
        request-HasEnd api.pause _ (answering.save _ request_id) (api.refuse _) _
