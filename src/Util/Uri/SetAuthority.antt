-- ===== src/Util/Uri/SetAuthority.antt =====
-- util/URI.cc: set_host and set_userinfo change the text of one component, and keep those of the others
-- that do not hold it.
use oasys.Base.{ℕ, ◌+◌, ◌^◌, ◌<◌, ◌≤◌, ◌≡◌, refl, ap, ◌∙◌, List, length, arith}
use oasys.Util.Uri.Types.{parse_ok, at_offset, Uri, text}
use oasys.Util.Uri.Setters.{splice, set_host, set_userinfo}
use oasys.Util.Uri.Layout.{
  IsLaidOut, IsLaidOut-Facts, laid_out, shift, adjust_length-some, adjust_offset-some,
  length-splice, text-splice, text-splice_before, text-splice_after,
}
use oasys.Util.Uri.SetTypes.{IsUpdated, userinfo_part, host_part, besides_host, besides_userinfo}

module _ (u : Uri) (ok : u.parse_err ≡ parse_ok) (l : IsLaidOut u) (t : List ℕ)
    (short : length u.uri < 2 ^ 31) (fits : length t < 2 ^ 31) where
  -- In a URI that has been parsed, set_host puts the new text in the place of the host, and keeps those
  -- of the other components that do not hold it, if the text of the URI and the new one are shorter
  -- than 2^31 characters. No assertion fails, and the components still follow one another.
  pub set_host-IsUpdated : IsUpdated host_part besides_host t u (set_host t u)
  unfolding set_host
  set_host-IsUpdated =
      let c = u.host in
      let old = c.length in
      let new = length t in
      let facts = IsLaidOut-Facts u l in
      let inside : c.offset + c.length ≤ length u.uri = omega (arith, facts) in
      let ls = length-splice u.uri c t inside in
      let v : Uri = record u {
        uri = splice u.uri c t;
        ssp = at_offset u.ssp.offset (shift old new u.ssp.length);
        authority = at_offset u.authority.offset (shift old new u.authority.length);
        host = at_offset u.host.offset (shift old new u.host.length);
        port = at_offset (shift old new u.port.offset) u.port.length;
        path = at_offset (shift old new u.path.offset) u.path.length;
        query = at_offset (shift old new u.query.offset) u.query.length;
        fragment = at_offset (shift old new u.fragment.offset) u.fragment.length;
      } in
      (
        v,
        rw
            (
              ok,
              adjust_length-some old new u.ssp (omega (arith, facts)) (omega (arith, facts)) fits,
              adjust_length-some old new u.authority (omega (arith, facts)) (omega (arith, facts))
                  fits,
              adjust_length-some old new u.host (omega (arith, facts)) (omega (arith, facts)) fits,
              adjust_offset-some old new u.port (omega (arith, facts)) (omega (arith, facts)) fits,
              adjust_offset-some old new u.path (omega (arith, facts)) (omega (arith, facts)) fits,
              adjust_offset-some old new u.query (omega (arith, facts)) (omega (arith, facts)) fits,
              adjust_offset-some old new u.fragment (omega (arith, facts)) (omega (arith, facts))
                  fits,
            )
            refl,
        laid_out v (ground (arith, facts, ls)),
        ok,
        ap (λ n. text (splice u.uri c t) (at_offset c.offset n)) (omega arith)
            ∙ text-splice u.uri c t inside,
        refl,
        (
          text-splice_before u.uri c t inside u.scheme (omega (arith, facts)),
          (
            text-splice_before u.uri c t inside u.userinfo (omega (arith, facts)),
            (
              text-splice_after u.uri c t inside u.port (omega (arith, facts)),
              (
                text-splice_after u.uri c t inside u.path (omega (arith, facts)),
                (
                  text-splice_after u.uri c t inside u.query (omega (arith, facts)),
                  (text-splice_after u.uri c t inside u.fragment (omega (arith, facts)), tt),
                ),
              ),
            ),
          ),
        ),
      )

  pub set_userinfo-IsUpdated : IsUpdated userinfo_part besides_userinfo t u (set_userinfo t u)
  unfolding set_userinfo
  set_userinfo-IsUpdated =
      let c = u.userinfo in
      let old = c.length in
      let new = length t in
      let facts = IsLaidOut-Facts u l in
      let inside : c.offset + c.length ≤ length u.uri = omega (arith, facts) in
      let ls = length-splice u.uri c t inside in
      let v : Uri = record u {
        uri = splice u.uri c t;
        ssp = at_offset u.ssp.offset (shift old new u.ssp.length);
        authority = at_offset u.authority.offset (shift old new u.authority.length);
        userinfo = at_offset u.userinfo.offset (shift old new u.userinfo.length);
        host = at_offset (shift old new u.host.offset) u.host.length;
        port = at_offset (shift old new u.port.offset) u.port.length;
        path = at_offset (shift old new u.path.offset) u.path.length;
        query = at_offset (shift old new u.query.offset) u.query.length;
        fragment = at_offset (shift old new u.fragment.offset) u.fragment.length;
      } in
      (
        v,
        rw
            (
              ok,
              adjust_length-some old new u.ssp (omega (arith, facts)) (omega (arith, facts)) fits,
              adjust_length-some old new u.authority (omega (arith, facts)) (omega (arith, facts))
                  fits,
              adjust_length-some old new u.userinfo (omega (arith, facts)) (omega (arith, facts))
                  fits,
              adjust_offset-some old new u.host (omega (arith, facts)) (omega (arith, facts)) fits,
              adjust_offset-some old new u.port (omega (arith, facts)) (omega (arith, facts)) fits,
              adjust_offset-some old new u.path (omega (arith, facts)) (omega (arith, facts)) fits,
              adjust_offset-some old new u.query (omega (arith, facts)) (omega (arith, facts)) fits,
              adjust_offset-some old new u.fragment (omega (arith, facts)) (omega (arith, facts))
                  fits,
            )
            refl,
        laid_out v (ground (arith, facts, ls)),
        ok,
        ap (λ n. text (splice u.uri c t) (at_offset c.offset n)) (omega arith)
            ∙ text-splice u.uri c t inside,
        refl,
        (
          text-splice_before u.uri c t inside u.scheme (omega (arith, facts)),
          (
            text-splice_after u.uri c t inside u.host (omega (arith, facts)),
            (
              text-splice_after u.uri c t inside u.port (omega (arith, facts)),
              (
                text-splice_after u.uri c t inside u.path (omega (arith, facts)),
                (
                  text-splice_after u.uri c t inside u.query (omega (arith, facts)),
                  (text-splice_after u.uri c t inside u.fragment (omega (arith, facts)), tt),
                ),
              ),
            ),
          ),
        ),
      )
