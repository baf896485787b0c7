-- ===== src/Widgets/Nodes/Listed.antt =====
-- Several nodes in a panel that is too narrow for the table.
