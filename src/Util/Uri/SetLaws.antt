-- ===== src/Util/Uri/SetLaws.antt =====
-- util/URI.cc: set_path, set_query and set_fragment change the text of one component, and keep those of
-- the others.
use oasys.Base.{ℕ, ◌+◌, ◌^◌, ◌<◌, ◌≤◌, ◌≡◌, refl, ap, ◌∙◌, List, length, arith}
use oasys.Util.Uri.Types.{parse_ok, at_offset, Uri, text}
use oasys.Util.Uri.Setters.{splice, set_path, set_query, set_fragment}
use oasys.Util.Uri.Layout.{
  IsLaidOut, IsLaidOut-Facts, laid_out, shift, adjust_length-some, adjust_offset-some,
  length-splice, text-splice, text-splice_before, text-splice_after,
}
use oasys.Util.Uri.SetTypes.{
  IsUpdated, path_part, query_part, fragment_part, besides_path, besides_query, besides_fragment,
}

module _ (u : Uri) (ok : u.parse_err ≡ parse_ok) (l : IsLaidOut u) (t : List ℕ)
    (short : length u.uri < 2 ^ 31) (fits : length t < 2 ^ 31) where
  -- In a URI that has been parsed, set_path puts the new text in the place of the path, and keeps the
  -- texts of the scheme, of the parts of the authority, of the query and of the fragment, if the text of
  -- the URI and the new one are shorter than 2^31 characters. No assertion fails, and the components
  -- still follow one another.
  pub set_path-IsUpdated : IsUpdated path_part besides_path t u (set_path t u)
  unfolding set_path
  set_path-IsUpdated =
      let c = u.path in
      let old = c.length in
      let new = length t in
      let facts = IsLaidOut-Facts u l in
      let inside : c.offset + c.length ≤ length u.uri = omega (arith, facts) in
      let ls = length-splice u.uri c t inside in
      let v : Uri = record u {
        uri = splice u.uri c t;
        ssp = at_offset u.ssp.offset (shift old new u.ssp.length);
        path = at_offset u.path.offset (shift old new u.path.length);
        query = at_offset (shift old new u.query.offset) u.query.length;
        fragment = at_offset (shift old new u.fragment.offset) u.fragment.length;
      } in
      (
        v,
        rw
            (
              ok,
              adjust_length-some old new u.ssp (omega (arith, facts)) (omega (arith, facts)) fits,
              adjust_length-some old new u.path (omega (arith, facts)) (omega (arith, facts)) fits,
              adjust_offset-some old new u.query (omega (arith, facts)) (omega (arith, facts)) fits,
              adjust_offset-some old new u.fragment (omega (arith, facts)) (omega (arith, facts))
                  fits,
            )
            refl,
        laid_out v (ground (arith, facts, ls)),
        ok,
        ap (λ n. text (splice u.uri c t) (at_offset c.offset n)) (omega arith)
            ∙ text-splice u.uri c t inside,
        refl,
        (
          text-splice_before u.uri c t inside u.scheme (omega (arith, facts)),
          (
            text-splice_before u.uri c t inside u.authority (omega (arith, facts)),
            (
              text-splice_before u.uri c t inside u.userinfo (omega (arith, facts)),
              (
                text-splice_before u.uri c t inside u.host (omega (arith, facts)),
                (
                  text-splice_before u.uri c t inside u.port (omega (arith, facts)),
                  (
                    text-splice_after u.uri c t inside u.query (omega (arith, facts)),
                    (text-splice_after u.uri c t inside u.fragment (omega (arith, facts)), tt),
                  ),
                ),
              ),
            ),
          ),
        ),
      )

  pub set_query-IsUpdated : IsUpdated query_part besides_query t u (set_query t u)
  unfolding set_query
  set_query-IsUpdated =
      let c = u.query in
      let old = c.length in
      let new = length t in
      let facts = IsLaidOut-Facts u l in
      let inside : c.offset + c.length ≤ length u.uri = omega (arith, facts) in
      let ls = length-splice u.uri c t inside in
      let v : Uri = record u {
        uri = splice u.uri c t;
        ssp = at_offset u.ssp.offset (shift old new u.ssp.length);
        query = at_offset u.query.offset (shift old new u.query.length);
        fragment = at_offset (shift old new u.fragment.offset) u.fragment.length;
      } in
      (
        v,
        rw
            (
              ok,
              adjust_length-some old new u.ssp (omega (arith, facts)) (omega (arith, facts)) fits,
              adjust_length-some old new u.query (omega (arith, facts)) (omega (arith, facts)) fits,
              adjust_offset-some old new u.fragment (omega (arith, facts)) (omega (arith, facts))
                  fits,
            )
            refl,
        laid_out v (ground (arith, facts, ls)),
        ok,
        ap (λ n. text (splice u.uri c t) (at_offset c.offset n)) (omega arith)
            ∙ text-splice u.uri c t inside,
        refl,
        (
          text-splice_before u.uri c t inside u.scheme (omega (arith, facts)),
          (
            text-splice_before u.uri c t inside u.authority (omega (arith, facts)),
            (
              text-splice_before u.uri c t inside u.userinfo (omega (arith, facts)),
              (
                text-splice_before u.uri c t inside u.host (omega (arith, facts)),
                (
                  text-splice_before u.uri c t inside u.port (omega (arith, facts)),
                  (
                    text-splice_before u.uri c t inside u.path (omega (arith, facts)),
                    (text-splice_after u.uri c t inside u.fragment (omega (arith, facts)), tt),
                  ),
                ),
              ),
            ),
          ),
        ),
      )

  pub set_fragment-IsUpdated : IsUpdated fragment_part besides_fragment t u (set_fragment t u)
  unfolding set_fragment
  set_fragment-IsUpdated =
      let c = u.fragment in
      let old = c.length in
      let new = length t in
      let facts = IsLaidOut-Facts u l in
      let inside : c.offset + c.length ≤ length u.uri = omega (arith, facts) in
      let ls = length-splice u.uri c t inside in
      let v : Uri = record u {
        uri = splice u.uri c t;
        ssp = at_offset u.ssp.offset (shift old new u.ssp.length);
        fragment = at_offset u.fragment.offset (shift old new u.fragment.length);
      } in
      (
        v,
        rw
            (
              ok,
              adjust_length-some old new u.ssp (omega (arith, facts)) (omega (arith, facts)) fits,
              adjust_length-some old new u.fragment (omega (arith, facts)) (omega (arith, facts))
                  fits,
            )
            refl,
        laid_out v (ground (arith, facts, ls)),
        ok,
        ap (λ n. text (splice u.uri c t) (at_offset c.offset n)) (omega arith)
            ∙ text-splice u.uri c t inside,
        refl,
        (
          text-splice_before u.uri c t inside u.scheme (omega (arith, facts)),
          (
            text-splice_before u.uri c t inside u.authority (omega (arith, facts)),
            (
              text-splice_before u.uri c t inside u.userinfo (omega (arith, facts)),
              (
                text-splice_before u.uri c t inside u.host (omega (arith, facts)),
                (
                  text-splice_before u.uri c t inside u.port (omega (arith, facts)),
                  (
                    text-splice_before u.uri c t inside u.path (omega (arith, facts)),
                    (text-splice_before u.uri c t inside u.query (omega (arith, facts)), tt),
                  ),
                ),
              ),
            ),
          ),
        ),
      )
