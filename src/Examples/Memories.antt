-- ===== src/Examples/Memories.antt =====
-- A list of images in memory, and its copy.
use kwarm.Base.{ℕ, String, [], ◌∷◌, Option, none, some, inl, inr, arith}
use kwarm.Kube.{StringMap}
use kwarm.Api
use kwarm.Memory.Copier.{Place, Copier, return, into_new}
use kwarm.Memory.Layout.{assigned, entries, pointed}
use kwarm.Memory.Parts.{assigned-IsCopy, copy_entries-IsCopy, into_new-IsCopy}
use kwarm.Memory.DeepCopy.Policy.{copy_entries}
use kwarm.Memory.Types.{External, in_memory, PrePullImage}
use kwarm.Memory.DeepCopy.{Object, Stored, deep_copy_object}
use kwarm.Memory.Apart.{IsFree, IsResult, deep_copy_object-IsResult}

abbrev a_text : Copier String String
a_text = record { layout = assigned; copy = return; correct = assigned-IsCopy }

abbrev a_map : Copier (Option (Place StringMap)) (Option (String → Option String))
a_map = record {
  layout = pointed entries;
  copy = into_new copy_entries;
  correct = into_new-IsCopy copy_entries-IsCopy;
}

abbrev a_time : Copier (Option (Place ℕ)) (Option ℕ)
a_time = record {
  layout = pointed assigned;
  copy = into_new return;
  correct = into_new-IsCopy assigned-IsCopy;
}

-- What another package has is its labels, a text, or a time.
abbrev simple : External
simple = record {
  type_meta = String;
  object_meta = Option (Place StringMap);
  object_meta_value = Option (String → Option String);
  list_meta = String;
  list_meta_value = String;
  resources = Option (Place StringMap);
  resources_value = Option (String → Option String);
  label_selector = Option (Place StringMap);
  label_selector_value = Option (String → Option String);
  time = Option (Place ℕ);
  time_value = Option ℕ;
  condition = String;
  condition_value = String;
  object_meta_deep_copy = a_map;
  list_meta_deep_copy = a_text;
  resources_deep_copy = a_map;
  label_selector_deep_copy = a_map;
  time_deep_copy = a_time;
  condition_deep_copy = a_text;
}

abbrev at : {A : Type 0} → ℕ → A → Option (Place A)
at a x = some (record { address = a; content = x })

-- An image for two nodes, one of which has begun.
abbrev stored_image : PrePullImage (in_memory simple)
stored_image = record {
  type_meta = "PrePullImage";
  meta = at 2 (("team", "shop") ∷ []);
  spec = record {
    image = "web:2";
    image_digest = "";
    nodes = record { selector = none; names = at 3 ("a" ∷ ("b" ∷ [])) };
    image_pull_secrets = none;
    resources = none;
    retry = record { max_attempts = 3; backoff_seconds = 30 };
    timeout = "10m";
  };
  status = record {
    phase = Api.PrePullImagePhase.in_progress;
    node_status = at 4 (
        record {
          node = "a";
          status = Api.NodePullStatus.pulling;
          started_at = some (at 5 7);
          completed_at = none;
          duration = "";
          error = "";
          retry_count = 0;
          job_name = "pull-web-a";
        }
        ∷ []);
    summary = record { total = 2; pending = 1; pulling = 1; completed = 0; failed = 0 };
    conditions = none;
    start_time = none;
    completion_time = none;
  };
}

abbrev stored_list : Stored simple
stored_list =
    Object.image_list (
      at 0 (record { type_meta = "PrePullImageList"; meta = ""; items = at 1 (stored_image ∷ []) }))

stored_below : IsFree simple stored_list 6
stored_below a (inl e) = ground (arith, e)
stored_below a (inr (inl e)) = ground (arith, e)
stored_below a (inr (inr (inl e))) = ground (arith, e)
stored_below a (inr (inr (inr (inl e)))) = ground (arith, e)
stored_below a (inr (inr (inr (inr (inl e))))) = ground (arith, e)
stored_below a (inr (inr (inr (inr (inr (inl e)))))) = ground (arith, e)
stored_below a (inr (inr (inr (inr (inr (inr e)))))) = absurd e

deep_copy_object-IsResult_example :
    IsResult simple stored_list 6 (deep_copy_object simple stored_list 6)
deep_copy_object-IsResult_example = deep_copy_object-IsResult simple stored_list 6 stored_below
