-- ===== src/Widgets/Helpers/Priority/Count.antt =====
-- As many lines stay as there are rows, if there are that many.
