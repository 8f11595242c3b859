-- ===== src/Socket/Docs/Page/Caching.antt =====
-- The document and the page are made once, and a page that could not be made is made later.
use nestjs_vibe_engine.Prelude.{
  String, ◌≡◌, refl, sym, ap, ◌∙◌, subst, false, Option, none, some, ◌==◌,
}
use nestjs_vibe_engine.Exec.{Exec, Exception, ok, err, recover, continue, ◌>>=◌}
use nestjs_vibe_engine.Socket.Docs.{WsDocsSpec, or_else}
use nestjs_vibe_engine.Socket.Docs.Page.{
  WsDocsService, DocsDeps, make_spec, render, fallback_page, event_rows, spec_or, get_spec,
  store_html, render_html, build_fallback_html, html_or, get_html,
}

module _ {V F : Type 0} where
  -- The document that a state has or would make.
  abbrev pub document : DocsDeps V F → WsDocsService V F → WsDocsSpec V
  document deps s = or_else s.spec (make_spec deps.options deps.config s.events)

  -- The page of a template.
  abbrev pub page_of : DocsDeps V F → WsDocsService V F → WsDocsSpec V → String → String
  page_of deps s spec template =
      render template spec.title spec.description spec.version (deps.events_json s.events)
        (deps.spec_json spec)

  spec_or_lem :
      (deps : DocsDeps V F) (spec : Option (WsDocsSpec V)) (s : WsDocsService V F)
      → let made = or_else spec (make_spec deps.options deps.config s.events) in
        (spec_or deps spec s).0 ≡ ok made
  spec_or_lem deps none s = refl
  spec_or_lem deps (some spec) s = refl

  spec_or-again :
      (deps deps' : DocsDeps V F) (spec : Option (WsDocsSpec V)) (s : WsDocsService V F)
      → s.spec ≡ spec
      → get_spec deps' (spec_or deps spec s).1 ≡ spec_or deps spec s
  unfolding get_spec
  spec_or-again deps deps' none s e = refl
  spec_or-again deps deps' (some spec) s e = ap (λ o. spec_or deps' o s) e

  -- The document is made once: a later request gets the same one, whatever options and environment
  -- it is then given, and changes nothing.
  pub get_spec_once :
      (deps deps' : DocsDeps V F) (s : WsDocsService V F)
      → ((get_spec deps s).0 ≡ ok (document deps s))
        × (get_spec deps' (get_spec deps s).1 ≡ get_spec deps s)
  unfolding get_spec
  get_spec_once deps deps' s = (spec_or_lem deps s.spec s, spec_or-again deps deps' s.spec s refl)

  spec_or_at :
      (deps : DocsDeps V F) (spec : Option (WsDocsSpec V)) (s : WsDocsService V F)
      → s.spec ≡ spec
      → let made = or_else spec (make_spec deps.options deps.config s.events) in
        spec_or deps spec s ≡ (ok made, record s { spec = some made })
  spec_or_at deps none s e = refl
  spec_or_at deps (some spec) s e = ap (λ o. (ok spec, record s { spec = o })) e

  get_spec_at :
      (deps : DocsDeps V F) (s : WsDocsService V F)
      → get_spec deps s ≡ (ok (document deps s), record s { spec = some (document deps s) })
  unfolding get_spec
  get_spec_at deps s = spec_or_at deps s.spec s refl

  fallback_at :
      (deps : DocsDeps V F) (s : WsDocsService V F)
      → build_fallback_html deps s ≡ (
        ok (fallback_page (document deps s) (event_rows s.events)),
        record s { spec = some (document deps s) },
      )
  unfolding build_fallback_html
  fallback_at deps s =
      ap (λ p. continue p.0 (λ spec t. (ok (fallback_page spec (event_rows s.events)), t)) p.1)
        (get_spec_at deps s)

  module _ (deps : DocsDeps V F) (s : WsDocsService V F) (files : F) where
    -- The service behind a page that was made, and behind one that could not be made.
    abbrev pub rendered : String → WsDocsService V F
    rendered page = record s {
      spec = some (document deps s);
      html_cache = some page;
      files = files;
    }

    abbrev pub not_rendered : WsDocsService V F
    not_rendered = record s { spec = some (document deps s); files = files }

    abbrev stored : String → WsDocsSpec V → Exec (WsDocsService V F) String
    stored template spec = store_html deps (page_of deps s spec template)

    render_ok :
        (template : String)
        → deps.read_template s.files ≡ (ok template, files)
        → render_html deps s ≡ (
          ok (page_of deps s (document deps s) template),
          rendered (page_of deps s (document deps s) template),
        )
    unfolding render_html
    render_ok template read =
        ap (λ p. continue p.0 (λ t. get_spec deps >>= stored t) (record s { files = p.1 })) read
        ∙ ap (λ p. continue p.0 (stored template) p.1)
            (get_spec_at deps (record s { files = files }))

    render_err :
        (e : Exception)
        → deps.read_template s.files ≡ (err e, files)
        → render_html deps s ≡ (err e, record s { files = files })
    unfolding render_html
    render_err e read =
        ap (λ p. continue p.0 (λ t. get_spec deps >>= stored t) (record s { files = p.1 })) read

    get_html_ok :
        (template : String)
        → s.html_cache ≡ none
        → deps.read_template s.files ≡ (ok template, files)
        → get_html deps s ≡ (
          ok (page_of deps s (document deps s) template),
          rendered (page_of deps s (document deps s) template),
        )
    unfolding get_html
    get_html_ok template empty read =
        ap (λ o. html_or deps o s) empty
        ∙ ap (λ p. recover p.0 (λ _. build_fallback_html deps) p.1) (render_ok template read)

    get_html_err :
        (e : Exception)
        → s.html_cache ≡ none
        → deps.read_template s.files ≡ (err e, files)
        → get_html deps s
          ≡ (ok (fallback_page (document deps s) (event_rows s.events)), not_rendered)
    unfolding get_html
    get_html_err e empty read =
        ap (λ o. html_or deps o s) empty
        ∙ ap (λ p. recover p.0 (λ _. build_fallback_html deps) p.1) (render_err e read)
        ∙ fallback_at deps (record s { files = files })

  cached_page :
      (deps : DocsDeps V F) (page : String) (s : WsDocsService V F)
      → s.html_cache ≡ some page
      → (page == "") ≡ false
      → get_html deps s ≡ (ok page, s)
  unfolding get_html
  cached_page deps page s kept full = ap (λ o. html_or deps o s) kept ∙ rw full refl

  -- When the template cannot be read, the first request gets the plain page. A later request for which
  -- it can be read gets the full page, of the document from the first request, and every request after
  -- that gets the same page, whatever has become of the template, unless the page is empty.
  pub get_html_recovers :
      (deps later last : DocsDeps V F) (s : WsDocsService V F) (files files' : F) (e : Exception)
      (template : String)
      → s.html_cache ≡ none
      → deps.read_template s.files ≡ (err e, files)
      → later.read_template files ≡ (ok template, files')
      → (page_of later s (document deps s) template == "") ≡ false
      → let page = page_of later s (document deps s) template in
        let first = (get_html deps s).1 in
        let second = (get_html later first).1 in
        ((get_html deps s).0 ≡ ok (fallback_page (document deps s) (event_rows s.events)))
        × ((get_html later first).0 ≡ ok page)
        × (get_html last second ≡ (ok page, second))
  get_html_recovers deps later last s files files' e template empty failed read full =
      let t = not_rendered deps s files in
      let page = page_of later s (document deps s) template in
      let one = get_html_err deps s files e empty failed in
      let two = get_html_ok later t files' template empty read in
      let at_t = ap (λ r. r.1) one in
      let at_u = ap (λ x. (get_html later x).1) at_t ∙ ap (λ r. r.1) two in
      (
        ap (λ r. r.0) one,
        ap (λ x. (get_html later x).0) at_t ∙ ap (λ r. r.0) two,
        subst (λ (x : WsDocsService V F). get_html last x ≡ (ok page, x)) (sym at_u)
            (cached_page last page (rendered later t files' page) refl full),
      )
