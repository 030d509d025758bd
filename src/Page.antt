-- ===== src/Page.antt =====
-- The parts of the page that keep a small state of their own: Frontend/components/side-nav.tsx,
-- Frontend/components/smooth-scroll.tsx, the card of Frontend/components/work-section.tsx, and
-- Frontend/hooks/use-mobile.ts.
pub mod SideNav
pub mod SmoothScroll
pub mod WorkCard
pub mod UseMobile
pub mod Tests
