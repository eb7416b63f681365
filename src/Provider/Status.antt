-- ===== src/Provider/Status.antt =====
-- provider/cocoon/status.go: the status of a pod, and whether two statuses agree.
use vk_cocoon.Base.{
  Bool, true, false, not, ◌&&◌, ◌||◌, Option, none, some, String, List, [], ◌∷◌, ◌==◌,
  if◌then◌else◌,
}
use vk_cocoon.Base.Seq.{find_first}
use vk_cocoon.Kube.{
  Pod, PodStatus, Phase, Condition, ConditionStatus, ConditionType, ContainerStatus, holds, fails,
  pod_ready, initialized, other_condition, pending, running, succeeded, failed, unknown,
}

abbrev pub container_name : String
container_name = "agent"

-- `GetPodStatus` of a pod whose VM is gone.
unfoldable pub status_without_vm : Pod → PodStatus
status_without_vm pod = record {
  phase = pending;
  pod_ip = "";
  started = pod.status.started;
  conditions = [];
  container_statuses = [];
}

abbrev condition_of : Bool → ConditionStatus
condition_of true = holds
condition_of false = fails

-- `GetPodStatus` with a VM: the pod is Ready when its probe passes and its lifecycle says so.
unfoldable pub status_with_vm : Pod → String → Bool → Bool → String → PodStatus
status_with_vm pod ip probe_ready lifecycle_ready message =
    let ready = probe_ready && lifecycle_ready in
    record {
      phase = running;
      pod_ip = ip;
      started = pod.status.started;
      conditions =
          record { kind = pod_ready; status = condition_of ready; message = message }
          ∷ record { kind = initialized; status = holds; message = "" }
          ∷ [];
      container_statuses =
          record {
            name = container_name;
            ready = ready;
            is_running = true;
            is_waiting = false;
            is_terminated = false;
          }
          ∷ [];
    }

unfoldable pub same_phase : Phase → Phase → Bool
same_phase pending pending = true
same_phase running running = true
same_phase succeeded succeeded = true
same_phase failed failed = true
same_phase unknown unknown = true
same_phase _ _ = false

unfoldable pub same_type : ConditionType → ConditionType → Bool
same_type pod_ready pod_ready = true
same_type initialized initialized = true
same_type other_condition other_condition = true
same_type _ _ = false

unfoldable pub same_condition_status : ConditionStatus → ConditionStatus → Bool
same_condition_status holds holds = true
same_condition_status fails fails = true
same_condition_status _ _ = false

unfoldable pub same_bool : Bool → Bool → Bool
same_bool true true = true
same_bool false false = true
same_bool _ _ = false

unfoldable pub find_condition : ConditionType → List Condition → Option Condition
find_condition kind = find_first (λ c. same_type c.kind kind)

abbrev is_ready_type : ConditionType → Bool
is_ready_type pod_ready = true
is_ready_type _ = false

abbrev same_found : ConditionType → Option Condition → Option Condition → Bool
same_found kind none none = true
same_found kind none (some b) = false
same_found kind (some a) none = false
same_found kind (some a) (some b) =
    same_condition_status a.status b.status && (not (is_ready_type kind) || a.message == b.message)

unfoldable pub condition_matches : List Condition → List Condition → ConditionType → Bool
condition_matches current expected kind =
    same_found kind (find_condition kind current) (find_condition kind expected)

unfoldable pub find_container_status : List ContainerStatus → Option ContainerStatus
find_container_status = find_first (λ s. s.name == container_name)

abbrev same_container : Option ContainerStatus → Option ContainerStatus → Bool
same_container none none = true
same_container none (some b) = false
same_container (some a) none = false
same_container (some a) (some b) =
    same_bool a.ready b.ready
    && same_bool a.is_running b.is_running
    && same_bool a.is_waiting b.is_waiting
    && same_bool a.is_terminated b.is_terminated

unfoldable pub container_status_matches : List ContainerStatus → List ContainerStatus → Bool
container_status_matches current expected =
    same_container (find_container_status current) (find_container_status expected)

unfoldable pub pod_status_matches : PodStatus → PodStatus → Bool
unfolding condition_matches container_status_matches same_phase
pod_status_matches current expected =
    if not (same_phase current.phase expected.phase) || not (current.pod_ip == expected.pod_ip)
    then false
    else if not (condition_matches current.conditions expected.conditions pod_ready)
        || not (condition_matches current.conditions expected.conditions initialized)
    then false
    else container_status_matches current.container_statuses expected.container_statuses
