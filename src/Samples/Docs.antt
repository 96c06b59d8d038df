-- ===== src/Samples/Docs.antt =====
-- Documents that are the list of the changes made to them, and a manager of them.
use aideep_backend.Common.{String, refl, none, some, List, [], ◌∷◌, ◌++◌}
use aideep_backend.Yjs.Documents.{Documents}
use aideep_backend.Yjs.Manager.{Manager}
use aideep_backend.Yjs.Manager.Safety.{IsSafe}

abbrev first_text : List String → String
first_text [] = ""
first_text (t ∷ _) = t

abbrev pub lists : Documents
lists = record {
  Doc = List String;
  Update = List String;
  empty = [];
  apply = λ d u. d ++ u;
  encode = λ d. d;
  apply_encode = λ d. refl;
  to_text = first_text;
  of_text = λ t. t ∷ [];
}

-- no document in memory, and one in the database
abbrev pub idle_manager : Manager lists
idle_manager = record {
  docs = [];
  timers = [];
  next_handle = 0;
  now = 0;
  stores = record {
    redis = [];
    nodes =
        ("n", record { yjs_state = some ("old" ∷ []); markdown_body = none; workspace_id = "w" })
        ∷ [];
    invalidated = [];
    outages = [];
  };
}

pub idle_manager-IsSafe : IsSafe lists idle_manager
idle_manager-IsSafe = record { answers = refl; kept = λ node_id d e. absurd (cc e) }
