-- ===== src/World.antt =====
-- What the program calls and does not implement: hashlib, re, json and the clock.
use llmcut.Prelude.{ℕ, String, Bool, List, Option}
use llmcut.Json.{Json, ℤ}

pub record World : Type 0 where
  -- `hashlib.sha256(text.encode()).hexdigest()`
  pub sha256 : String → String
  -- the `pattern.sub` of each pattern in `SECRET_PATTERNS`, in order
  pub substitutions : List (String → String)
  -- `json.dumps(value, sort_keys=True, separators=(",", ":"))`
  pub dumps : Json → String
  -- `json.dumps(value, ensure_ascii=False, separators=(",", ":"))`
  pub dumps_native : Json → String
  -- `json.dumps(value, sort_keys=True)`, with its spaces
  pub dumps_spaced : Json → String
  -- `json.loads`, whose dictionaries have the order of the text; `none` is its `JSONDecodeError`
  pub loads : String → Option Json
  -- `str` of a value that is no text
  pub to_str : Json → String
  -- `str.splitlines`
  pub split_lines : String → List String
  -- `re.compile(pattern)` and the test that its `search` makes; `none` is `re.error`
  pub compile : String → Option (String → Bool)
  -- `re.search(pattern, text, re.I)`, as a test
  pub search : String → String → Bool
  -- `re.search(pattern, text)` without flags, as a test
  pub search_exactly : String → String → Bool
  -- `re.fullmatch(pattern, text)`, as a test
  pub full_match : String → String → Bool
  -- `re.escape`
  pub escape : String → String
  -- `int(value)`; `none` is its `ValueError` or `TypeError`
  pub to_int : Json → Option ℤ
  -- the words that `re.findall(r"[A-Za-z_][A-Za-z0-9_.-]{2,}", text)` finds
  pub find_terms : String → List String
  -- `str.lower`
  pub lower : String → String
  -- the reading of `int(time.time())` that follows a reading
  pub tick : ℕ → ℕ
  -- `str.casefold`
  pub casefold : String → String
  -- the first text that `re.search(r"(?:[\w./-]+):\d+(?::\d+)?", line)` matches
  pub find_location : String → Option String
  -- `repr` of a list of texts
  pub repr : List String → String
  -- a number of thousandths written with three digits after the point
  pub fixed : ℕ → String
  -- `text.rsplit("/", 1)[-1]`
  pub base_name : String → String
  -- `json.dumps(value)`
  pub dumps_plain : Json → String
  -- `sorted` of texts
  pub sort_texts : List String → List String
  -- `line.strip()`
  pub strip : String → String
  -- `a + b` of two values that are not both integers or Booleans; `none` is its `TypeError`
  pub add : Json → Json → Option Json
  -- the words that `re.findall(r"[A-Za-z_][\w.-]+", text)` finds
  pub find_words : String → List String
