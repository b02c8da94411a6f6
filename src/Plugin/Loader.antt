-- ===== src/Plugin/Loader.antt =====
-- plugin.go: `LoadPluginsWithContext` and `logPluginLoaderErrors`.
use pucora_ce.Base.{ℕ, ◌+◌, String, List, [], ◌∷◌, ◌++◌, ◌≡◌, refl, Option, none, some, ltb, arith}
use pucora_ce.Base.{if◌then◌else◌, map, ap, ◌∙◌, append-nil}

-- An error of a loader: a `pluginLoaderErr`, which lists the errors of its plugins, or any other.
pub data LoadError : Type 0 where
  many : List String → LoadError
  single : String → LoadError

pub data LogLine : Type 0 where
  debug : List String → LogLine
  total_loaded : String → ℕ → LogLine

-- What a loader returns: how many plugins it registered, and an error or nil.
pub record Loaded : Type 0 where
  pub n : ℕ
  pub error : Option LoadError

-- The three loaders of the plugin libraries, on a folder and a pattern, and contexts, of which the one
-- of the modifiers takes one.
pub record Loaders : Type 1 where
  pub Context : Type 0
  pub background : Context
  pub load_client : String → String → Loaded
  pub load_server : String → String → Loaded
  pub load_modifier : Context → String → String → Loaded

debug_all : String → List String → List LogLine
debug_all tag [] = []
debug_all tag (e ∷ es) = debug (tag ∷ e ∷ []) ∷ debug_all tag es

error_lines : String → Option LoadError → List LogLine
unfolding debug_all
error_lines tag none = []
error_lines tag (some (many es)) = debug_all tag es
error_lines tag (some (single e)) = debug (tag ∷ e ∷ []) ∷ []

unfoldable pub log_plugin_loader_errors : String → Loaded → List LogLine
unfolding error_lines
log_plugin_loader_errors tag r =
    error_lines tag r.error ++ (if ltb 0 r.n then total_loaded tag r.n ∷ [] else [])

unfoldable pub load_plugins_with_context :
    (l : Loaders) → l.Context → String → String → List LogLine
load_plugins_with_context l ctx folder pattern =
    (debug ("[SERVICE: Plugin Loader] Starting loading process" ∷ []) ∷ [])
    ++ (log_plugin_loader_errors "[SERVICE: Executor Plugin]" (l.load_client folder pattern)
        ++ (log_plugin_loader_errors "[SERVICE: Handler Plugin]" (l.load_server folder pattern)
            ++ (log_plugin_loader_errors "[SERVICE: Modifier Plugin]"
                  (l.load_modifier ctx folder pattern)
                ++ (debug ("[SERVICE: Plugin Loader] Loading process completed" ∷ []) ∷ []))))

-- `LoadPlugins`
unfoldable pub load_plugins : Loaders → String → String → List LogLine
load_plugins l folder pattern = load_plugins_with_context l l.background folder pattern

-- `Load` and `LoadWithContext` of the default plugin loader.
pub load : Loaders → String → String → List LogLine
load = load_plugins

pub load_with_context : (l : Loaders) → l.Context → String → String → List LogLine
load_with_context = load_plugins_with_context

-- The numbers that the lines report.
unfoldable pub reported : List LogLine → ℕ
reported [] = 0
reported (debug m ∷ ls) = reported ls
reported (total_loaded tag n ∷ ls) = n + reported ls

reported-append : (ls ms : List LogLine) → reported (ls ++ ms) ≡ reported ls + reported ms
unfolding reported
reported-append [] ms = omega arith
reported-append (debug m ∷ ls) ms = reported-append ls ms
reported-append (total_loaded tag n ∷ ls) ms = omega (arith, reported-append ls ms)

-- The errors that an error of a loader lists.
abbrev pub errors : Option LoadError → List String
errors none = []
errors (some (many es)) = es
errors (some (single e)) = e ∷ []

-- The messages of the debug lines.
unfoldable pub debugged : List LogLine → List (List String)
debugged [] = []
debugged (debug m ∷ ls) = m ∷ debugged ls
debugged (total_loaded tag n ∷ ls) = debugged ls

-- The message of an error, under the tag of its loader.
abbrev pub tagged : String → List String → List (List String)
tagged tag es = map (λ e. tag ∷ e ∷ []) es

debugged-append : (ls ms : List LogLine) → debugged (ls ++ ms) ≡ debugged ls ++ debugged ms
unfolding debugged
debugged-append [] ms = refl
debugged-append (debug m ∷ ls) ms = ap (λ r. m ∷ r) (debugged-append ls ms)
debugged-append (total_loaded tag n ∷ ls) ms = debugged-append ls ms

debug_all-lines :
    (tag : String) (es : List String)
    → (reported (debug_all tag es) ≡ 0) × (debugged (debug_all tag es) ≡ tagged tag es)
unfolding debug_all reported debugged
debug_all-lines tag [] = (refl, refl)
debug_all-lines tag (e ∷ es) =
    let (r, d) = debug_all-lines tag es in (r, ap (λ ms. (tag ∷ e ∷ []) ∷ ms) d)

error_lines-lines :
    (tag : String) (o : Option LoadError)
    → (reported (error_lines tag o) ≡ 0) × (debugged (error_lines tag o) ≡ tagged tag (errors o))
unfolding error_lines reported debugged
error_lines-lines tag none = (refl, refl)
error_lines-lines tag (some (many es)) = debug_all-lines tag es
error_lines-lines tag (some (single e)) = (refl, refl)

total_lines : String → ℕ → List LogLine
total_lines tag n = if ltb 0 n then total_loaded tag n ∷ [] else []

total_lines-lines :
    (tag : String) (n : ℕ)
    → (reported (total_lines tag n) ≡ n) × (debugged (total_lines tag n) ≡ [])
unfolding total_lines reported debugged
total_lines-lines tag n = ground arith

module _ (tag : String) (r : Loaded) (rest : List LogLine) where
  reported_step : reported (log_plugin_loader_errors tag r ++ rest) ≡ r.n + reported rest
  unfolding log_plugin_loader_errors total_lines
  reported_step = omega (
    arith,
    reported-append (log_plugin_loader_errors tag r) rest,
    reported-append (error_lines tag r.error) (total_lines tag r.n),
    (error_lines-lines tag r.error).0,
    (total_lines-lines tag r.n).0,
  )

  debugged_step :
      debugged (log_plugin_loader_errors tag r ++ rest)
      ≡ tagged tag (errors r.error) ++ debugged rest
  unfolding log_plugin_loader_errors total_lines
  debugged_step =
      debugged-append (log_plugin_loader_errors tag r) rest
      ∙ ap (λ l. l ++ debugged rest)
          (debugged-append (error_lines tag r.error) (total_lines tag r.n)
            ∙ ap (λ l. l ++ debugged (total_lines tag r.n)) (error_lines-lines tag r.error).1
            ∙ ap (λ l. tagged tag (errors r.error) ++ l) (total_lines-lines tag r.n).1
            ∙ append-nil (tagged tag (errors r.error)))

-- The three loaders run one after the other whatever the earlier ones answer: the totals that are
-- logged add up to what the loaders registered, also beside errors. The debug lines are the first and
-- the last one and, between them, one for each error that a loader lists, which has that error after
-- the tag of its loader: the clients' errors, then the servers', then the modifiers', in their order.
pub load_plugins_with_context-lines :
    (l : Loaders) (ctx : l.Context) (folder pattern : String)
    → let client = l.load_client folder pattern in
      let server = l.load_server folder pattern in
      let modifier = l.load_modifier ctx folder pattern in
      (reported (load_plugins_with_context l ctx folder pattern) ≡ client.n + server.n + modifier.n)
      × (debugged (load_plugins_with_context l ctx folder pattern)
          ≡ ("[SERVICE: Plugin Loader] Starting loading process" ∷ [])
            ∷ (tagged "[SERVICE: Executor Plugin]" (errors client.error)
                ++ (tagged "[SERVICE: Handler Plugin]" (errors server.error)
                    ++ (tagged "[SERVICE: Modifier Plugin]" (errors modifier.error)
                        ++ (("[SERVICE: Plugin Loader] Loading process completed" ∷ []) ∷ [])))))
unfolding load_plugins_with_context reported debugged
load_plugins_with_context-lines l ctx folder pattern =
    (simp reported_step (omega arith), simp debugged_step refl)
