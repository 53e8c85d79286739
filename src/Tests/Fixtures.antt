-- ===== src/Tests/Fixtures.antt =====
-- A small world in which the tests run, and the data that they share.
use Prim.Native.String.{◌++◌ as join, len}
use llmcut.Prelude.{suc, String, true, false, none, some, List, [], ◌∷◌, ◌≟◌, if◌then◌else◌}
use llmcut.Json.{
  Json, null, boolean, int, real, str, arr, obj, Items, nil, cons, Fields, field, end, pos,
}
use llmcut.Json.Sorted.{sort_keys}
use llmcut.World.{World}
use llmcut.Model.{
  BlockKind, system, command_output, recoverable, ContextBlock, CanonicalRequest, exact,
}
use llmcut.Model.Codec.{to_dict}
use llmcut.Store.Evidence.{EvidenceStore}
use llmcut.Tokens.{TokenCounter}

abbrev mutual
  pub render : Json → String
  render null = "null"
  render (boolean true) = "true"
  render (boolean false) = "false"
  render (int z) = "0"
  render (real t) = t
  render (str s) = join "'" (join s "'")
  render (arr vs) = join "[" (join (render_items vs) "]")
  render (obj d) = join "{" (join (render_fields d) "}")

  pub render_items : Items → String
  render_items nil = ""
  render_items (cons v vs) = join (render v) (join "," (render_items vs))

  pub render_fields : Fields → String
  render_fields end = ""
  render_fields (field k v d) = join k (join ":" (join (render v) (join "," (render_fields d))))

-- a block whose digest is that of its content, in a world whose hash is the text itself
abbrev pub block : String → BlockKind → String → Fields → ContextBlock
block id kind content metadata = record {
  id = id;
  kind = kind;
  content = content;
  source = "file";
  priority = pos 50;
  dependencies = [];
  metadata = metadata;
  reference = none;
  tokens = none;
  digest = join "sha256:" content;
  retention = recoverable;
}

-- two blocks with one content, and one that its caller has proved redundant
abbrev pub three_blocks : List ContextBlock
three_blocks =
    block "policy" system "be exact" end
    ∷ block "again" system "be exact" end
    ∷ block "old" command_output "a long output that is proved redundant"
        (field "proven_redundant" (boolean true) end)
    ∷ []

abbrev pub request : CanonicalRequest
request = record {
  blocks = three_blocks;
  model = record {
    provider = "openai";
    model = "m";
    parameters = end;
    reasoning = end;
    token_budget = none;
  };
  tools = [];
  cache = end;
  passthrough = end;
  request_id = some "r1";
}

-- the hash of a text is the text; redaction knows one secret
abbrev pub world : World
world = record {
  sha256 = λ t. t;
  substitutions = (λ v. if v ≟ "key=abc" then "key=[REDACTED]" else v) ∷ [];
  dumps = λ v. render (sort_keys v);
  dumps_native = render;
  dumps_spaced = λ v. render (sort_keys v);
  loads = λ t.
      if t ≟ render (sort_keys (to_dict request)) then some (sort_keys (to_dict request)) else none;
  to_str = λ v. "0";
  split_lines = λ t. t ∷ "second" ∷ "third" ∷ [];
  compile = λ p. some (λ line. line ≟ p);
  search = λ p t. t ≟ ".env";
  search_exactly = λ p t. false;
  full_match = λ p t. true;
  escape = λ t. t;
  to_int = λ v. elim v [ int z ↦ some z | _ ↦ none ];
  find_terms = λ t. t ∷ [];
  lower = λ t. t;
  tick = λ n. suc n;
  casefold = λ t. t;
  find_location = λ t. none;
  repr = λ ts. "[]";
  fixed = λ n. "0.000";
  base_name = λ t. t;
  add = λ a b. none;
  dumps_plain = render;
  sort_texts = λ ts. ts;
  strip = λ t. t;
  find_words = λ t. t ∷ [];
}

-- a counter of bytes
abbrev pub bytes : TokenCounter
bytes text model = record { value = len text; quality = exact; method = "bytes" }

abbrev pub new_store : EvidenceStore
new_store = record { persist_content = true; evidence = []; references = []; clock = 1 }
